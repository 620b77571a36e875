-- ===== src/Raft/LogFile/Bytes.antt =====
-- Byte stores: a write at a position, the bytes read back, and 32-bit words in little-endian order.
use rlite.Base.{
  ℕ, zero, suc, ◌+◌, ◌*◌, ◌/◌, ◌%◌, ◌^◌, ◌≤◌, ◌<◌, ◌≡◌, refl, ◌⊎◌, List, [], ◌∷◌, length, ◌==◌,
  if◌then◌else◌, arith,
}

unfoldable pub put_bytes : (ℕ → ℕ) → ℕ → List ℕ → ℕ → ℕ
put_bytes b pos [] i = b i
put_bytes b pos (x ∷ xs) i = if i == pos then x else put_bytes b (pos + 1) xs i

unfoldable pub get_bytes : (ℕ → ℕ) → ℕ → ℕ → List ℕ
get_bytes b pos zero = []
get_bytes b pos (suc n) = b pos ∷ get_bytes b (pos + 1) n

-- `reinterpret_cast` of a `uint32_t` on a little-endian host.
unfoldable pub u32_bytes : ℕ → List ℕ
u32_bytes v = (v % 256) ∷ (v / 256 % 256) ∷ (v / 65536 % 256) ∷ (v / 16777216 % 256) ∷ []

unfoldable pub u32_at : (ℕ → ℕ) → ℕ → ℕ
u32_at b pos = b pos + 256 * b (pos + 1) + 65536 * b (pos + 2) + 16777216 * b (pos + 3)

pub put_bytes-outside :
    (b : ℕ → ℕ) (pos : ℕ) (xs : List ℕ) (i : ℕ)
    → (i < pos) ⊎ (pos + length xs ≤ i)
    → put_bytes b pos xs i ≡ b i
unfolding put_bytes
put_bytes-outside b pos [] i h = refl
put_bytes-outside b pos (x ∷ xs) i h = ground (arith, put_bytes-outside b (pos + 1) xs i)

pub get_bytes-congr :
    (b c : ℕ → ℕ) (pos n : ℕ)
    → ((i : ℕ) → pos ≤ i → i < pos + n → b i ≡ c i)
    → get_bytes b pos n ≡ get_bytes c pos n
unfolding get_bytes
get_bytes-congr b c pos zero h = refl
get_bytes-congr b c pos (suc n) h = ground (
  arith,
  h pos (omega arith) (omega arith),
  get_bytes-congr b c (pos + 1) n (λ i lo hi. h i (omega arith) (omega arith)),
)

-- A read that a write does not overlap gives the old bytes.
pub get_bytes-put_bytes_apart :
    (b : ℕ → ℕ) (pos : ℕ) (xs : List ℕ) (at n : ℕ)
    → (at + n ≤ pos) ⊎ (pos + length xs ≤ at)
    → get_bytes (put_bytes b pos xs) at n ≡ get_bytes b at n
get_bytes-put_bytes_apart b pos xs at n h =
    get_bytes-congr (put_bytes b pos xs) b at n
      (λ i lo hi. put_bytes-outside b pos xs i (omega arith))

-- A read of what was just written gives it back.
pub get_bytes-put_bytes_self :
    (b : ℕ → ℕ) (pos : ℕ) (xs : List ℕ) → get_bytes (put_bytes b pos xs) pos (length xs) ≡ xs
unfolding get_bytes put_bytes
get_bytes-put_bytes_self b pos [] = refl
get_bytes-put_bytes_self b pos (x ∷ xs) = ground (
  arith,
  get_bytes-congr (put_bytes b pos (x ∷ xs)) (put_bytes b (pos + 1) xs) (pos + 1) (length xs)
      (λ i lo hi. ground arith),
  get_bytes-put_bytes_self b (pos + 1) xs,
)

pub u32_at-put_bytes_apart :
    (b : ℕ → ℕ) (pos : ℕ) (xs : List ℕ) (at : ℕ)
    → (at + 4 ≤ pos) ⊎ (pos + length xs ≤ at)
    → u32_at (put_bytes b pos xs) at ≡ u32_at b at
unfolding u32_at
u32_at-put_bytes_apart b pos xs at h = omega (
  arith,
  put_bytes-outside b pos xs at (omega arith),
  put_bytes-outside b pos xs (at + 1) (omega arith),
  put_bytes-outside b pos xs (at + 2) (omega arith),
  put_bytes-outside b pos xs (at + 3) (omega arith),
)

pub u32_at-put_bytes_self :
    (b : ℕ → ℕ) (pos v : ℕ) → v < 2 ^ 32 → u32_at (put_bytes b pos (u32_bytes v)) pos ≡ v
unfolding u32_at put_bytes u32_bytes
u32_at-put_bytes_self b pos v h = ground arith

pub length-u32_bytes : (v : ℕ) → length (u32_bytes v) ≡ 4
unfolding u32_bytes
length-u32_bytes v = refl

pub u32_at-congr :
    (b c : ℕ → ℕ) (pos : ℕ) → ((i : ℕ) → i < pos + 4 → b i ≡ c i) → u32_at b pos ≡ u32_at c pos
unfolding u32_at
u32_at-congr b c pos h = omega (
  arith,
  h pos (omega arith),
  h (pos + 1) (omega arith),
  h (pos + 2) (omega arith),
  h (pos + 3) (omega arith),
)

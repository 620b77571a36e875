-- ===== src/Uipcp/Lfdb/Queue.antt =====
-- The priority queue of user/uipcps/uipcp-normal-lfdb.cpp keeps its order.
use native.Mathlib.Decide.{dec_lt}
use rlite.Base.{
  ℕ, suc, ◌≤◌, ◌≡◌, ◌⊎◌, refl, sym, subst, inl, inr, List, [], ◌∷◌, arith, IsIn, length,
}
use rlite.Uipcp.Lfdb.{PqInfo, pq_push}

-- The distances ascend from `d` on.
abbrev pub Sorted : ℕ → List PqInfo → Type 0
Sorted d [] = Unit {0}
Sorted d (e ∷ es) = (d ≤ e.dist) × Sorted e.dist es

pub pq_push-Sorted :
    (d : ℕ) (e : PqInfo) (es : List PqInfo) → d ≤ e.dist → Sorted d es → Sorted d (pq_push e es)
unfolding pq_push
pq_push-Sorted d e [] le h = (le, tt)
pq_push-Sorted d e (f ∷ fs) le h = elim (dec_lt e.dist f.dist) [
  | yes before ↦
      let step : pq_push e (f ∷ fs) ≡ e ∷ f ∷ fs = ground arith in
      subst (Sorted d) (sym step) (le, (omega arith, h.1))
  | no after ↦
      let step : pq_push e (f ∷ fs) ≡ f ∷ pq_push e fs = ground arith in
      subst (Sorted d) (sym step) (h.0, pq_push-Sorted f.dist e fs (omega arith) h.1)
]

-- What is in the queue after a push.
pub pq_push-IsIn : (e x : PqInfo) (es : List PqInfo) → (e ≡ x) ⊎ IsIn x es → IsIn x (pq_push e es)
unfolding pq_push
pq_push-IsIn e x [] h = h
pq_push-IsIn e x (f ∷ fs) h = elim (dec_lt e.dist f.dist) [
  | yes before ↦
      let step : pq_push e (f ∷ fs) ≡ e ∷ f ∷ fs = ground arith in subst (IsIn x) (sym step) h
  | no after ↦
      let step : pq_push e (f ∷ fs) ≡ f ∷ pq_push e fs = ground arith in
      subst (IsIn x) (sym step) (elim h [
        | inl new ↦ inr (pq_push-IsIn e x fs (inl new))
        | inr (inl here) ↦ inl here
        | inr (inr later) ↦ inr (pq_push-IsIn e x fs (inr later))
      ])
]

pub IsIn-pq_push : (e x : PqInfo) (es : List PqInfo) → IsIn x (pq_push e es) → (e ≡ x) ⊎ IsIn x es
unfolding pq_push
IsIn-pq_push e x [] h = h
IsIn-pq_push e x (f ∷ fs) h = elim (dec_lt e.dist f.dist) [
  | yes before ↦ let step : pq_push e (f ∷ fs) ≡ e ∷ f ∷ fs = ground arith in subst (IsIn x) step h
  | no after ↦
      let step : pq_push e (f ∷ fs) ≡ f ∷ pq_push e fs = ground arith in
      elim (subst (IsIn x) step h) [
        | inl here ↦ inr (inl here)
        | inr later ↦ elim (IsIn-pq_push e x fs later) [
          | inl new ↦ inl new
          | inr old ↦ inr (inr old)
        ]
      ]
]

pub Sorted-IsIn : (d : ℕ) (x : PqInfo) (es : List PqInfo) → Sorted d es → IsIn x es → d ≤ x.dist
Sorted-IsIn d x [] h no_place = elim no_place [ ]
Sorted-IsIn d x (e ∷ es) h (inl same) = subst (λ y. d ≤ y.dist) same h.0
Sorted-IsIn d x (e ∷ es) h (inr later) = omega (arith, h.0, Sorted-IsIn e.dist x es h.1 later)

pub length-pq_push : (e : PqInfo) (es : List PqInfo) → length (pq_push e es) ≡ suc (length es)
unfolding pq_push
length-pq_push e [] = refl
length-pq_push e (f ∷ fs) = ground (arith, length-pq_push e fs)

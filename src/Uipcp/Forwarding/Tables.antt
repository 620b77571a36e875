-- ===== src/Uipcp/Forwarding/Tables.antt =====
-- Tables by address, user/uipcps/uipcp-normal-lower-flows.cpp: what is found in them, and that an address
-- has one entry.
use rlite.Base.{
  ◌≡◌, refl, sym, ◌∙◌, subst, inl, inr, false, Option-cases, List, [], ◌∷◌, arith, Bool-cases, none,
  some, ◌==◌, if◌then◌else◌,
}
use rlite.Uipcp.Lfdb.{NodeId}
use rlite.Uipcp.Forwarding.{Addr, Port, NextPorts, addr_find, addr_set, prune}

module _ {A : Type 0} where
  pub addr_find-set_same :
      (k : Addr) (a : A) (m : List (Addr × A)) → addr_find k (addr_set k a m) ≡ some a
  unfolding addr_find addr_set
  addr_find-set_same k a [] = ground arith
  addr_find-set_same k a ((n, b) ∷ rest) = elim (Bool-cases (n == k)) [
    | inl same ↦ ground arith
    | inr other ↦ ground (arith, addr_find-set_same k a rest)
  ]

  pub addr_find-set_other :
      (k v : Addr) (a : A) (m : List (Addr × A))
      → (k == v) ≡ false
      → addr_find v (addr_set k a m) ≡ addr_find v m
  unfolding addr_find addr_set
  addr_find-set_other k v a [] differ = ground arith
  addr_find-set_other k v a ((n, b) ∷ rest) differ = elim (Bool-cases (n == k)) [
    | inl same ↦ ground arith
    | inr other ↦ ground (arith, addr_find-set_other k v a rest differ)
  ]

  -- No address has two entries.
  unfoldable pub IsMap : List (Addr × A) → Type 0
  IsMap [] = Unit
  IsMap ((n, a) ∷ rest) = (addr_find n rest ≡ none) × IsMap rest

  pub addr_set-IsMap : (k : Addr) (a : A) (m : List (Addr × A)) → IsMap m → IsMap (addr_set k a m)
  unfolding IsMap addr_find addr_set
  addr_set-IsMap k a [] h = (refl, tt)
  addr_set-IsMap k a ((n, b) ∷ rest) (new, h) = elim (Bool-cases (n == k)) [
    | inl same ↦
        let step : addr_set k a ((n, b) ∷ rest) ≡ (n, a) ∷ rest = ground arith in
        subst IsMap (sym step) (new, h)
    | inr other ↦
        let step : addr_set k a ((n, b) ∷ rest) ≡ (n, b) ∷ addr_set k a rest = ground arith in
        subst IsMap (sym step)
          (addr_find-set_other k n a rest (ground arith) ∙ new, addr_set-IsMap k a rest h)
  ]

-- What is not found in a table is not found in it pruned.
pub addr_find-prune-none :
    (v : Addr) (p : Port) (m : NextPorts) → addr_find v m ≡ none → addr_find v (prune p m) ≡ none
unfolding addr_find prune
addr_find-prune-none v p [] h = refl
addr_find-prune-none v p ((n, (node, q)) ∷ rest) h =
    let other : (n == v) ≡ false = ground arith in
    let less = addr_find-prune-none v p rest (ground arith) in ground arith

pub prune-IsMap : (p : Port) (m : NextPorts) → IsMap m → IsMap (prune p m)
unfolding IsMap prune
prune-IsMap p [] h = tt
prune-IsMap p ((n, (node, q)) ∷ rest) (new, h) = elim (Bool-cases (q == p)) [
  | inl out ↦
      let step : prune p ((n, (node, q)) ∷ rest) ≡ prune p rest = ground arith in
      subst IsMap (sym step) (prune-IsMap p rest h)
  | inr kept ↦
      let step : prune p ((n, (node, q)) ∷ rest) ≡ (n, (node, q)) ∷ prune p rest = ground arith in
      subst IsMap (sym step) (addr_find-prune-none n p rest new, prune-IsMap p rest h)
]

-- An entry is found in the pruned table unless it goes through the pruned port.
pub addr_find-prune :
    (v : Addr) (p : Port) (m : NextPorts) (node : NodeId) (q : Port)
    → IsMap m
    → addr_find v m ≡ some (node, q)
    → addr_find v (prune p m) ≡ (if q == p then none else some (node, q))
unfolding IsMap addr_find prune
addr_find-prune v p [] node q h found = absurd (ground arith)
addr_find-prune v p ((n, (name, r)) ∷ rest) node q (once, h) found = elim (Bool-cases (n == v)) [
  | inl same ↦
      let this : n ≡ v = ground arith in
      let missing : addr_find v rest ≡ none = subst (λ c. addr_find c rest ≡ none) this once in
      let less = addr_find-prune-none v p rest missing in
      elim (Bool-cases (r == p)) [ inl out ↦ ground arith | inr kept ↦ ground arith ]
  | inr other ↦
      let later = addr_find-prune v p rest node q h (ground arith) in
      elim (Bool-cases (r == p)) [ inl out ↦ ground arith | inr kept ↦ ground arith ]
]

-- What is found in the pruned table is found in the table.
pub prune-addr_find :
    (v : Addr) (p : Port) (m : NextPorts) (node : NodeId) (q : Port)
    → IsMap m
    → addr_find v (prune p m) ≡ some (node, q)
    → addr_find v m ≡ some (node, q)
prune-addr_find v p m node q h found = elim (Option-cases (addr_find v m)) [
  | inl missing ↦ let gone = addr_find-prune-none v p m missing in absurd (ground arith)
  | inr ((name, r), there) ↦
      let kept = addr_find-prune v p m name r h there in
      elim (Bool-cases (r == p)) [ inl out ↦ absurd (ground arith) | inr stays ↦ ground arith ]
]

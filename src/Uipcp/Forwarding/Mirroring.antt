-- ===== src/Uipcp/Forwarding/Mirroring.antt =====
-- The kernel's forwarding table beside that of user/uipcps/uipcp-normal-lower-flows.cpp: what the calls of
-- `compute_fwd_table` leave in the kernel.
use rlite.Base.{
  ◌≡◌, refl, sym, ap, ◌∙◌, subst, inl, inr, Bool, true, false, not, ◌&&◌, List, [], ◌∷◌, ◌++◌,
  arith, Bool-cases, Option, Option-cases, none, some, ◌==◌, if◌then◌else◌,
}
use rlite.Uipcp.Lfdb.{NodeId}
use rlite.Uipcp.Forwarding.{Addr, Port, NextPorts, PduftOp, addr_find, in_place, del_old, set_new}
use rlite.Uipcp.Forwarding.Tables.{IsMap}

-- What a call makes of the kernel's entry for an address. A deletion is taken not to be refused; the
-- source logs one that is, and leaves the entry behind.
unfoldable pub after_op : (Addr → Bool) → Addr → PduftOp → Option Port → Option Port
after_op fails b (PduftOp.pduft_del a p) entry = if a == b then none else entry
after_op fails b (PduftOp.pduft_set a p) entry = if a == b && not (fails a) then some p else entry

unfoldable pub after_ops : (Addr → Bool) → Addr → List PduftOp → Option Port → Option Port
after_ops fails b [] entry = entry
after_ops fails b (op ∷ ops) entry = after_ops fails b ops (after_op fails b op entry)

after_ops-append :
    (fails : Addr → Bool) (b : Addr) (xs ys : List PduftOp) (entry : Option Port)
    → after_ops fails b (xs ++ ys) entry ≡ after_ops fails b ys (after_ops fails b xs entry)
unfolding after_ops
after_ops-append fails b [] ys entry = refl
after_ops-append fails b (op ∷ xs) ys entry =
    after_ops-append fails b xs ys (after_op fails b op entry)

-- The port of an entry; an entry that was refused has none.
unfoldable pub port_of : Option (NodeId × Port) → Option Port
port_of none = none
port_of (some (node, p)) = if p == 0 then none else some p

-- The kernel's table has the same ports as the engine's.
abbrev pub Mirrors : NextPorts → (Addr → Option Port) → Type 0
Mirrors table kernel = (b : Addr) → kernel b ≡ port_of (addr_find b table)

module _ (fails : Addr → Bool) (b : Addr) where
  del_old-other :
      (new old : NextPorts) (entry : Option Port)
      → addr_find b old ≡ none
      → after_ops fails b (del_old new old) entry ≡ entry
  unfolding after_ops after_op del_old addr_find
  del_old-other new [] entry h = refl
  del_old-other new ((a, (node, p)) ∷ rest) entry h =
      let other : (a == b) ≡ false = ground arith in
      let later = del_old-other new rest entry (ground arith) in
      elim (Bool-cases (in_place a p new)) [ inl same ↦ ground arith | inr gone ↦ ground arith ]

  del_old-entry :
      (new old : NextPorts) (entry : Option Port) (node : NodeId) (p : Port)
      → IsMap old
      → addr_find b old ≡ some (node, p)
      → after_ops fails b (del_old new old) entry ≡ (if in_place b p new then entry else none)
  unfolding IsMap after_ops after_op del_old addr_find
  del_old-entry new [] entry node p h found = ground arith
  del_old-entry new ((a, (n, q)) ∷ rest) entry node p (once, h) found = elim (Bool-cases (a == b)) [
    | inl same ↦
        let this : a ≡ b = ground arith in
        let port : q ≡ p = ground arith in
        let missing : addr_find b rest ≡ none = subst (λ c. addr_find c rest ≡ none) this once in
        elim (Bool-cases (in_place a q new)) [
          | inl stays ↦
              let here : in_place b p new ≡ true =
                ap (λ c. in_place c p new) (sym this)
                ∙ ap (λ r. in_place a r new) (sym port)
                ∙ stays in
              ground (arith, del_old-other new rest entry missing)
          | inr goes ↦
              let here : in_place b p new ≡ false =
                ap (λ c. in_place c p new) (sym this)
                ∙ ap (λ r. in_place a r new) (sym port)
                ∙ goes in
              ground (arith, del_old-other new rest none missing)
        ]
    | inr other ↦
        let later = del_old-entry new rest entry node p h (ground arith) in
        elim (Bool-cases (in_place a q new)) [ inl stays ↦ ground arith | inr goes ↦ ground arith ]
  ]

  set_new-other :
      (old new : NextPorts) (entry : Option Port)
      → addr_find b new ≡ none
      → (after_ops fails b (set_new fails old new).0 entry ≡ entry)
        × (addr_find b (set_new fails old new).1 ≡ none)
  unfolding after_ops after_op set_new addr_find
  set_new-other old [] entry h = (refl, refl)
  set_new-other old ((a, (node, p)) ∷ rest) entry h =
      let other : (a == b) ≡ false = ground arith in
      let (later, missing) = set_new-other old rest entry (ground arith) in
      elim (Bool-cases (in_place a p old)) [
        | inl same ↦ (ground arith, ground arith)
        | inr fresh ↦ (ground arith, ground arith)
      ]

  -- What the loop leaves for an address of the new table.
  pub record Placed (old new : NextPorts) (entry : Option Port) (node : NodeId) (p : Port)
      : Type 0 where
    pub kernel :
        after_ops fails b (set_new fails old new).0 entry
        ≡ (if in_place b p old then entry else (if fails b then entry else some p))
    pub table :
        addr_find b (set_new fails old new).1
        ≡ some (if in_place b p old then (node, p) else (if fails b then ([], 0) else (node, p)))

  set_new-Placed :
      (old new : NextPorts) (entry : Option Port) (node : NodeId) (p : Port)
      → IsMap new
      → addr_find b new ≡ some (node, p)
      → Placed old new entry node p
  unfolding IsMap after_ops after_op set_new addr_find
  set_new-Placed old [] entry node p h found = absurd (ground arith)
  set_new-Placed old ((a, (n, q)) ∷ rest) entry node p (once, h) found =
      elim (Bool-cases (a == b)) [
        | inl same ↦
            let this : a ≡ b = ground arith in
            let (name, port) : (n ≡ node) × (q ≡ p) = (ground arith, ground arith) in
            let missing : addr_find b rest ≡ none =
              subst (λ c. addr_find c rest ≡ none) this once in
            let (later, absent) =
              set_new-other old rest (if fails a then entry else some q) missing in
            let (still, gone) = set_new-other old rest entry missing in
            let refused : fails b ≡ fails a = ap fails (sym this) in
            let here : in_place b p old ≡ in_place a q old =
              ap (λ c. in_place c p old) (sym this) ∙ ap (λ r. in_place a r old) (sym port) in
            elim (Bool-cases (in_place a q old)) [
              | inl stays ↦ record { kernel = ground arith; table = ground arith }
              | inr fresh ↦ elim (Bool-cases (fails a)) [
                | inl bad ↦ record { kernel = ground arith; table = ground arith }
                | inr good ↦ record { kernel = ground arith; table = ground arith }
              ]
            ]
        | inr other ↦
            let later = set_new-Placed old rest entry node p h (ground arith) in
            elim (Bool-cases (in_place a q old)) [
              | inl stays ↦ record {
                kernel = ground (arith, later.kernel);
                table = ground (arith, later.table);
              }
              | inr fresh ↦ record {
                kernel = ground (arith, later.kernel);
                table = ground (arith, later.table);
              }
            ]
      ]

  set_new-absent :
      (old new : NextPorts) → addr_find b new ≡ none → addr_find b (set_new fails old new).1 ≡ none
  set_new-absent old new h = (set_new-other old new none h).1

module _ (fails : Addr → Bool) where
  pub set_new-IsMap : (old new : NextPorts) → IsMap new → IsMap (set_new fails old new).1
  unfolding IsMap set_new addr_find
  set_new-IsMap old [] h = tt
  set_new-IsMap old ((a, (n, q)) ∷ rest) (once, h) =
      let missing = set_new-absent fails a old rest once in
      let later = set_new-IsMap old rest h in
      elim (Bool-cases (in_place a q old)) [
        | inl stays ↦
            let step : (set_new fails old ((a, (n, q)) ∷ rest)).1
                ≡ (a, (n, q)) ∷ (set_new fails old rest).1 =
              ground arith in
            subst IsMap (sym step) (missing, later)
        | inr fresh ↦
            let step : (set_new fails old ((a, (n, q)) ∷ rest)).1
                ≡ (a, (if fails a then ([], 0) else (n, q))) ∷ (set_new fails old rest).1 =
              ground arith in
            subst IsMap (sym step) (missing, later)
      ]

-- If the kernel refuses nothing, the engine's table is the new one.
pub set_new-accepted : (old new : NextPorts) → (set_new (λ a. false) old new).1 ≡ new
unfolding set_new
set_new-accepted old [] = refl
set_new-accepted old ((a, (n, q)) ∷ rest) = elim (Bool-cases (in_place a q old)) [
  | inl stays ↦ ground (arith, set_new-accepted old rest)
  | inr fresh ↦ ground (arith, set_new-accepted old rest)
]

-- No port of the table is 0.
abbrev pub HasPorts : NextPorts → Type 0
HasPorts table =
    (b : Addr) (node : NodeId) (p : Port) → addr_find b table ≡ some (node, p) → (p == 0) ≡ false

-- The calls of both loops bring the kernel's table to the new one.
pub update-Mirrors :
    (fails : Addr → Bool) (old new : NextPorts) (kernel : Addr → Option Port)
    → IsMap old
    → IsMap new
    → HasPorts new
    → Mirrors old kernel
    → (b : Addr)
    → after_ops fails b (del_old new old ++ (set_new fails old new).0) (kernel b)
      ≡ port_of (addr_find b (set_new fails old new).1)
unfolding in_place port_of
update-Mirrors fails old new kernel map_old map_new ports mirrors b =
    let r = set_new fails old new in
    let entry = kernel b in
    after_ops-append fails b (del_old new old) r.0 entry ∙ elim (Option-cases (addr_find b old)) [
      | inl fresh ↦
          let gone = del_old-other fails b new old entry fresh in
          let empty : entry ≡ none = ground (arith, mirrors b) in
          ap (after_ops fails b r.0) gone ∙ elim (Option-cases (addr_find b new)) [
            | inl missing ↦
                let (still, absent) = set_new-other fails b old new entry missing in ground arith
            | inr ((node, p), found) ↦
                let placed = set_new-Placed fails b old new entry node p map_new found in
                let port = ports b node p found in
                let k = placed.kernel in
                let t = placed.table in
                elim (Bool-cases (fails b)) [ inl bad ↦ ground arith | inr good ↦ ground arith ]
          ]
      | inr ((n, q), there) ↦
          let gone = del_old-entry fails b new old entry n q map_old there in
          let before = mirrors b in
          elim (Option-cases (addr_find b new)) [
            | inl missing ↦
                let removed : after_ops fails b (del_old new old) entry ≡ none = ground arith in
                let (still, absent) = set_new-other fails b old new none missing in
                ap (after_ops fails b r.0) removed ∙ ground arith
            | inr ((node, p), found) ↦
                let port = ports b node p found in
                elim (Bool-cases (p == q)) [
                  | inl same ↦
                      let kept : after_ops fails b (del_old new old) entry ≡ entry = ground arith in
                      let placed = set_new-Placed fails b old new entry node p map_new found in
                      let k = placed.kernel in
                      let t = placed.table in ap (after_ops fails b r.0) kept ∙ ground arith
                  | inr differ ↦
                      let removed : after_ops fails b (del_old new old) entry ≡ none =
                        ground arith in
                      let placed = set_new-Placed fails b old new none node p map_new found in
                      let k = placed.kernel in
                      let t = placed.table in
                      ap (after_ops fails b r.0) removed ∙ elim (Bool-cases (fails b)) [
                        | inl bad ↦ ground arith
                        | inr good ↦ ground arith
                      ]
                ]
          ]
    ]

-- ===== src/Uipcp/LinkState/Newest.antt =====
-- Flooding in user/uipcps/uipcp-normal-lower-flows.cpp: of the flows between two other nodes the newest
-- stays, in whatever order they come.
use rlite.Base.{
  ℕ, ◌≤◌, ◌≡◌, ◌≢◌, ◌⊎◌, refl, sym, ap, ◌∙◌, subst, inl, inr, true, false, Option, none, some, List,
  [], ◌∷◌, arith, IsIn, All, All-IsIn, Bool-cases, same_bytes-cases, ltb, if◌then◌else◌,
}
use native.Mathlib.Decide.{dec_lt}
use rlite.Uipcp.Lfdb.{NodeId, LowerFlow}
use rlite.Uipcp.Lfdb.NextHops.{lfdb_find}
use rlite.Uipcp.LinkState.{Node, Routing, add, handle_flows}
use rlite.Uipcp.LinkState.Entries.{is_between, newest, add-find_same, add-find_other}

-- The state after flows are added.
abbrev pub add_all : Node → List LowerFlow → Routing → Routing
add_all node fs s = (handle_flows node true fs s).1

-- The entry of two nodes after flows between any nodes.
unfoldable pub newest_of : NodeId → NodeId → List LowerFlow → Option LowerFlow → Option LowerFlow
newest_of u v [] o = o
newest_of u v (f ∷ fs) o = newest_of u v fs (if is_between u v f then newest o f else o)

add-newest :
    (node : Node) (f : LowerFlow) (s : Routing) (u v : NodeId)
    → u ≢ node.myname
    → lfdb_find (add node f s).1.db u v
      ≡ (if is_between u v f then newest (lfdb_find s.db u v) f else lfdb_find s.db u v)
add-newest node f s u v remote = elim (same_bytes-cases f.local_node u) [
  | inr (differ, apart) ↦
      let not_between : is_between u v f ≡ false = ground (arith, differ) in
      add-find_other node f s u v (inl apart)
      ∙ ap (λ b. if b then newest (lfdb_find s.db u v) f else lfdb_find s.db u v) (sym not_between)
  | inl (same, this) ↦ elim (same_bytes-cases f.remote_node v) [
    | inr (differ, apart) ↦
        let not_between : is_between u v f ≡ false = ground (arith, same, differ) in
        add-find_other node f s u v (inr apart)
        ∙ ap (λ b. if b then newest (lfdb_find s.db u v) f else lfdb_find s.db u v)
            (sym not_between)
    | inl (same_v, that) ↦
        let between : is_between u v f ≡ true = ground (arith, same, same_v) in
        let here = add-find_same node f s (λ e. remote (sym this ∙ e)) in
        subst (λ w. lfdb_find (add node f s).1.db w v ≡ newest (lfdb_find s.db w v) f) this
          (subst
            (λ w.
              lfdb_find (add node f s).1.db f.local_node w
              ≡ newest (lfdb_find s.db f.local_node w) f)
            that here)
        ∙ ap (λ b. if b then newest (lfdb_find s.db u v) f else lfdb_find s.db u v) (sym between)
  ]
]

pub add_all-newest_of :
    (node : Node) (fs : List LowerFlow) (s : Routing) (u v : NodeId)
    → u ≢ node.myname
    → lfdb_find (add_all node fs s).db u v ≡ newest_of u v fs (lfdb_find s.db u v)
unfolding handle_flows newest_of
add_all-newest_of node [] s u v remote = refl
add_all-newest_of node (f ∷ fs) s u v remote =
    add_all-newest_of node fs (add node f s).1 u v remote
    ∙ ap (newest_of u v fs) (add-newest node f s u v remote)

-- An entry that is no older than a number.
abbrev pub AtLeastSeq : ℕ → Option LowerFlow → Type 0
AtLeastSeq n o = (e : LowerFlow) × (o ≡ some e) × (n ≤ e.seqnum)

newest-old :
    (n : ℕ) (o : Option LowerFlow) (f : LowerFlow) → AtLeastSeq n o → AtLeastSeq n (newest o f)
newest-old n o f (e, same, le) = elim (dec_lt e.seqnum f.seqnum) [
  | yes newer ↦
      let result : newest o f ≡ some (record f { age = 0 }) = ground (arith, same) in
      (record f { age = 0 }, result, omega arith)
  | no older ↦ let result : newest o f ≡ some e = ground (arith, same) in (e, result, le)
]

newest-new : (o : Option LowerFlow) (f : LowerFlow) → AtLeastSeq f.seqnum (newest o f)
newest-new none f = (record f { age = 0 }, refl, omega arith)
newest-new (some old) f = elim (dec_lt old.seqnum f.seqnum) [
  | yes newer ↦
      let result : newest (some old) f ≡ some (record f { age = 0 }) = ground arith in
      (record f { age = 0 }, result, omega arith)
  | no older ↦
      let result : newest (some old) f ≡ some old = ground arith in (old, result, omega arith)
]

newest_of-old :
    (u v : NodeId) (fs : List LowerFlow) (n : ℕ) (o : Option LowerFlow)
    → AtLeastSeq n o
    → AtLeastSeq n (newest_of u v fs o)
unfolding newest_of
newest_of-old u v [] n o h = h
newest_of-old u v (f ∷ fs) n o h = elim (Bool-cases (is_between u v f)) [
  | inl between ↦
      let step : newest_of u v (f ∷ fs) o ≡ newest_of u v fs (newest o f) = ground arith in
      subst (AtLeastSeq n) (sym step) (newest_of-old u v fs n (newest o f) (newest-old n o f h))
  | inr other ↦
      let step : newest_of u v (f ∷ fs) o ≡ newest_of u v fs o = ground arith in
      subst (AtLeastSeq n) (sym step) (newest_of-old u v fs n o h)
]

pub newest_of-new :
    (u v : NodeId) (fs : List LowerFlow) (o : Option LowerFlow) (f : LowerFlow)
    → IsIn f fs
    → is_between u v f ≡ true
    → AtLeastSeq f.seqnum (newest_of u v fs o)
unfolding newest_of
newest_of-new u v [] o f no_place between = absurd no_place
newest_of-new u v (g ∷ fs) o f (inl same) between =
    let this : is_between u v g ≡ true = ap (is_between u v) same ∙ between in
    let step : newest_of u v (g ∷ fs) o ≡ newest_of u v fs (newest o g) = ground (arith, this) in
    let seq = ap LowerFlow.seqnum same in
    subst (λ n. AtLeastSeq n (newest_of u v (g ∷ fs) o)) seq
      (subst (AtLeastSeq g.seqnum) (sym step)
        (newest_of-old u v fs g.seqnum (newest o g) (newest-new o g)))
newest_of-new u v (g ∷ fs) o f (inr later) between =
    newest_of-new u v fs (if is_between u v g then newest o g else o) f later between

-- An entry that a flow of the list made.
abbrev pub CameFrom : NodeId → NodeId → List LowerFlow → LowerFlow → Type 0
CameFrom u v fs e =
    (f : LowerFlow) × IsIn f fs × (is_between u v f ≡ true) × (e ≡ record f { age = 0 })

CameFrom-later :
    (u v : NodeId) (g : LowerFlow) (fs : List LowerFlow) (e : LowerFlow)
    → CameFrom u v fs e
    → CameFrom u v (g ∷ fs) e
CameFrom-later u v g fs e (f, later, between, made) = (f, inr later, between, made)

pub newest_of-CameFrom :
    (u v : NodeId) (fs : List LowerFlow) (o : Option LowerFlow) (e : LowerFlow)
    → newest_of u v fs o ≡ some e
    → (o ≡ some e) ⊎ CameFrom u v fs e
unfolding newest_of
newest_of-CameFrom u v [] o e found = inl found
newest_of-CameFrom u v (g ∷ fs) o e found =
    elim (newest_of-CameFrom u v fs (if is_between u v g then newest o g else o) e found) [
      | inr later ↦ inr (CameFrom-later u v g fs e later)
      | inl now ↦ elim (Bool-cases (is_between u v g)) [
        | inr other ↦ inl (ground (arith, now))
        | inl between ↦
            let made : newest o g ≡ some e = ground (arith, now) in
            elim (newest-cases o g e made) [
              | inl old ↦ inl old
              | inr new ↦ inr (g, inl refl, between, new)
            ]
      ]
    ]
  where
    newest-cases :
        (o : Option LowerFlow) (g e : LowerFlow)
        → newest o g ≡ some e
        → (o ≡ some e) ⊎ (e ≡ record g { age = 0 })
    newest-cases none g e made = inr (ground (arith, made))
    newest-cases (some old) g e made = elim (Bool-cases (ltb old.seqnum g.seqnum)) [
      | inl newer ↦ inr (ground (arith, made))
      | inr older ↦ inl (ground (arith, made))
    ]

-- The entries of two nodes in two databases have the same sequence number.
pub record Agree (u v : NodeId) (s t : Routing) : Type 0 where
  pub here : LowerFlow
  pub there : LowerFlow
  pub found_here : lfdb_find s.db u v ≡ some here
  pub found_there : lfdb_find t.db u v ≡ some there
  pub same_seqnum : here.seqnum ≡ there.seqnum

-- No flow of one list is newer than the entry that all flows of the other made.
no_newer :
    (u v : NodeId) (fs gs : List LowerFlow) (o : Option LowerFlow) (e d : LowerFlow)
    → newest_of u v gs o ≡ some d
    → All (λ f. IsIn f gs) fs
    → CameFrom u v fs e
    → e.seqnum ≤ d.seqnum
no_newer u v fs gs o e d found all (f, in_fs, between, made) =
    let (d', found', le) =
      newest_of-new u v gs o f (All-IsIn (λ f. IsIn f gs) f fs all in_fs) between in
    let same : d' ≡ d = ground (arith, found, found') in
    omega (arith, ap LowerFlow.seqnum same, ap LowerFlow.seqnum made)

-- Two IPC processes that have no entry for two other nodes get the same flows, each perhaps several
-- times and in an order of its own. If one of the flows is between the two nodes, both end with an
-- entry for them, and the entries have the same sequence number.
pub add_all-Agree :
    (m n : Node) (fs gs : List LowerFlow) (s t : Routing) (u v : NodeId) (f : LowerFlow)
    → u ≢ m.myname
    → u ≢ n.myname
    → lfdb_find s.db u v ≡ none
    → lfdb_find t.db u v ≡ none
    → All (λ g. IsIn g gs) fs
    → All (λ g. IsIn g fs) gs
    → IsIn f fs
    → is_between u v f ≡ true
    → Agree u v (add_all m fs s) (add_all n gs t)
add_all-Agree m n fs gs s t u v f not_m not_n empty_s empty_t all_fs all_gs in_fs between =
    let o = lfdb_find s.db u v in
    let p = lfdb_find t.db u v in
    let (e, made_e, le) = newest_of-new u v fs o f in_fs between in
    let in_gs = All-IsIn (λ g. IsIn g gs) f fs all_fs in_fs in
    let (d, made_d, le_d) = newest_of-new u v gs p f in_gs between in
    let from_fs : CameFrom u v fs e = elim (newest_of-CameFrom u v fs o e made_e) [
      | inl old ↦ absurd (ground (arith, old, empty_s))
      | inr came ↦ came
    ] in
    let from_gs : CameFrom u v gs d = elim (newest_of-CameFrom u v gs p d made_d) [
      | inl old ↦ absurd (ground (arith, old, empty_t))
      | inr came ↦ came
    ] in
    record {
      here = e;
      there = d;
      found_here = add_all-newest_of m fs s u v not_m ∙ made_e;
      found_there = add_all-newest_of n gs t u v not_n ∙ made_d;
      same_seqnum = omega (
        arith,
        no_newer u v fs gs p e d made_d all_fs from_fs,
        no_newer u v gs fs o d e made_e all_gs from_gs,
      );
    }

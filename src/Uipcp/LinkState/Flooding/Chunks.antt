-- ===== src/Uipcp/LinkState/Flooding/Chunks.antt =====
-- The messages of `sync_neigh` and `neighs_refresh` in user/uipcps/uipcp-normal-lower-flows.cpp: what they
-- hold together, and that none is too long.
use rlite.Base.{
  ℕ, zero, suc, ◌+◌, ◌≤◌, ◌<◌, max, ◌≡◌, ◌⊎◌, refl, sym, ap, ◌∙◌, subst, inl, inr, Bool, true,
  false, Option, some, List, [], ◌∷◌, ◌++◌, append_assoc, append-nil, arith, leb, if◌then◌else◌,
  length, length-append, Bool-cases, All, All-append,
}
use rlite.Uipcp.Lfdb.{NodeId, LowerFlow}
use rlite.Uipcp.Lfdb.NextHops.{FlowDb}
use rlite.Uipcp.LinkState.{Node, no_flows}
use rlite.Uipcp.LinkState.Flooding.{
  Sync, sync_obj, sync_flows, sync_db, sync_neigh, renew, refresh_some, values, Refreshed,
  refresh_flows,
}

-- All flows of a list of messages, and all of a database, in order.
unfoldable pub flat : List (List LowerFlow) → List LowerFlow
flat [] = []
flat (c ∷ cs) = c ++ flat cs

unfoldable pub flows_of : FlowDb → List LowerFlow
flows_of [] = []
flows_of ((n, flows) ∷ rest) = values flows ++ flows_of rest

flat-append : (xs ys : List (List LowerFlow)) → flat (xs ++ ys) ≡ flat xs ++ flat ys
unfolding flat
flat-append [] ys = refl
flat-append (x ∷ xs) ys = ap (◌++◌ x) (flat-append xs ys) ∙ sym (append_assoc x (flat xs) (flat ys))

-- A message has a flow, and no more than it may have.
abbrev pub Fits : ℕ → List LowerFlow → Type 0
Fits limit c = (1 ≤ length c) × (length c ≤ max 1 limit)

-- What was sent and is to be sent, after the flows `seen`.
pub record IsSync (limit : ℕ) (seen : List LowerFlow) (s : Sync) : Type 0 where
  pub all : flat s.sent ++ s.lfl ≡ seen
  pub fit : All (Fits limit) s.sent
  pub room : length s.lfl < max 1 limit

-- The messages hold the flows, and each fits.
pub record Sends (limit : ℕ) (flows : List LowerFlow) (sent : List (List LowerFlow)) : Type 0 where
  pub all : flat sent ≡ flows
  pub fit : All (Fits limit) sent

no_flows-cases :
    (l : List LowerFlow)
    → ((no_flows l ≡ true) × (l ≡ [])) ⊎ ((no_flows l ≡ false) × (1 ≤ length l))
no_flows-cases [] = inl (refl, refl)
no_flows-cases (lf ∷ rest) = inr (refl, omega arith)

module _ (fails : List LowerFlow → Bool) (limit : ℕ) where
  sent_all : (s : Sync) → flat (sync_obj fails s).sent ≡ flat s.sent ++ s.lfl
  unfolding sync_obj flat
  sent_all s = flat-append s.sent (s.lfl ∷ []) ∙ ap (◌++◌ (flat s.sent)) (append-nil s.lfl)

  sync_flow-IsSync :
      (flow : LowerFlow) (seen : List LowerFlow) (s : Sync)
      → IsSync limit seen s
      → (let t = record s { lfl = s.lfl ++ flow ∷ [] } in
          IsSync limit
            (seen ++ flow ∷ [])
            (if leb limit (length t.lfl) then sync_obj fails t else t))
  unfolding sync_obj
  sync_flow-IsSync flow seen s h =
      let t : Sync = record s { lfl = s.lfl ++ flow ∷ [] } in
      let longer = length-append s.lfl (flow ∷ []) in
      let room = h.room in
      let all : flat s.sent ++ t.lfl ≡ seen ++ flow ∷ [] =
        sym (append_assoc (flat s.sent) s.lfl (flow ∷ [])) ∙ ap (λ l. l ++ flow ∷ []) h.all in
      elim (Bool-cases (leb limit (length t.lfl))) [
        | inl full ↦
            let step : (if leb limit (length t.lfl) then sync_obj fails t else t)
                ≡ sync_obj fails t =
              ground arith in
            subst (IsSync limit (seen ++ flow ∷ [])) (sym step) (record {
              all = append-nil (flat (sync_obj fails t).sent) ∙ sent_all t ∙ all;
              fit =
                  All-append (Fits limit) s.sent (t.lfl ∷ []) h.fit
                    ((omega arith, omega arith), tt);
              room = omega arith;
            })
        | inr more ↦
            let step : (if leb limit (length t.lfl) then sync_obj fails t else t) ≡ t =
              ground arith in
            let short : length t.lfl < limit = ground arith in
            subst (IsSync limit (seen ++ flow ∷ [])) (sym step)
              (record { all = all; fit = h.fit; room = omega arith })
      ]

  sync_flows-IsSync :
      (flows : List (NodeId × LowerFlow)) (seen : List LowerFlow) (s : Sync)
      → IsSync limit seen s
      → IsSync limit (seen ++ values flows) (sync_flows fails limit flows s)
  unfolding sync_flows values
  sync_flows-IsSync [] seen s h = subst (λ l. IsSync limit l s) (sym (append-nil seen)) h
  sync_flows-IsSync ((n, flow) ∷ rest) seen s h =
      subst (λ l. IsSync limit l (sync_flows fails limit ((n, flow) ∷ rest) s))
        (append_assoc seen (flow ∷ []) (values rest))
        (sync_flows-IsSync rest (seen ++ flow ∷ []) _ (sync_flow-IsSync flow seen s h))

  sync_db-IsSync :
      (db : FlowDb) (seen : List LowerFlow) (s : Sync)
      → IsSync limit seen s
      → IsSync limit (seen ++ flows_of db) (sync_db fails limit db s)
  unfolding sync_db flows_of
  sync_db-IsSync [] seen s h = subst (λ l. IsSync limit l s) (sym (append-nil seen)) h
  sync_db-IsSync ((n, flows) ∷ rest) seen s h =
      subst (λ l. IsSync limit l (sync_db fails limit ((n, flows) ∷ rest) s))
        (append_assoc seen (values flows) (flows_of rest))
        (sync_db-IsSync rest (seen ++ values flows) _ (sync_flows-IsSync flows seen s h))

  -- The messages of `sync_neigh` hold all flows of the database, in order and once each, whichever
  -- of the messages fail. Each holds one flow at least, and no more than the limit, or 1 if the
  -- limit is 0.
  pub sync_neigh-Sends : (db : FlowDb) → Sends limit (flows_of db) (sync_neigh fails limit db).sent
  unfolding sync_neigh flat sync_obj
  sync_neigh-Sends db =
      let start : Sync = record { lfl = []; sent = []; ret = false } in
      let h = sync_db-IsSync db [] start (record { all = refl; fit = tt; room = omega arith }) in
      let s = sync_db fails limit db start in
      elim (no_flows-cases s.lfl) [
        | inl (none_left, empty) ↦
            let step : sync_neigh fails limit db ≡ s = ground arith in
            subst (λ (t : Sync). Sends limit (flows_of db) t.sent) (sym step)
              (record {
                all = sym (append-nil (flat s.sent)) ∙ ap (◌++◌ (flat s.sent)) (sym empty) ∙ h.all;
                fit = h.fit;
              })
        | inr (some_left, positive) ↦
            let step : sync_neigh fails limit db ≡ sync_obj fails s = ground arith in
            let room = h.room in
            subst (λ (t : Sync). Sends limit (flows_of db) t.sent) (sym step)
              (record {
                all = sent_all s ∙ h.all;
                fit =
                    All-append (Fits limit) s.sent (s.lfl ∷ []) h.fit ((positive, omega arith), tt);
              })
      ]

-- All flows, each renewed if it is old.
unfoldable pub renew_all : Node → List (NodeId × LowerFlow) → List (NodeId × LowerFlow)
renew_all node [] = []
renew_all node ((n, lf) ∷ rest) = (n, renew node lf) ∷ renew_all node rest

values-append : (xs ys : List (NodeId × LowerFlow)) → values (xs ++ ys) ≡ values xs ++ values ys
unfolding values
values-append [] ys = refl
values-append ((n, lf) ∷ xs) ys = ap (◌∷◌ lf) (values-append xs ys)

length-values : (flows : List (NodeId × LowerFlow)) → length (values flows) ≡ length flows
unfolding values
length-values [] = refl
length-values ((n, lf) ∷ rest) = ap suc (length-values rest)

refresh_some-all :
    (node : Node) (limit : ℕ) (flows : List (NodeId × LowerFlow))
    → (let r = refresh_some node limit flows in
        (r.0 ++ renew_all node r.1 ≡ renew_all node flows)
        × (length r.0 ≤ limit)
        × (length r.0 + length r.1 ≡ length flows))
unfolding refresh_some renew_all
refresh_some-all node zero flows = (refl, omega arith, omega arith)
refresh_some-all node (suc limit) [] = (refl, omega arith, omega arith)
refresh_some-all node (suc limit) ((n, lf) ∷ rest) =
    let (all, short, sum) = refresh_some-all node limit rest in
    (ap (◌∷◌ (n, renew node lf)) all, omega arith, omega arith)

takes_one :
    (node : Node) (limit : ℕ) (f : NodeId × LowerFlow) (flows : List (NodeId × LowerFlow))
    → 1 ≤ limit
    → 1 ≤ length (refresh_some node limit (f ∷ flows)).0
unfolding refresh_some
takes_one node zero f flows positive = absurd (omega arith)
takes_one node (suc limit) (n, lf) flows positive = omega arith

-- The messages hold the flows, of which each was renewed if it was old, and so does the map.
pub record Refreshes (node : Node) (limit : ℕ) (flows : List (NodeId × LowerFlow))
    (result : Option Refreshed) : Type 0 where
  pub r : Refreshed
  pub ends : result ≡ some r
  pub map : r.flows ≡ renew_all node flows
  pub sends : Sends limit (values (renew_all node flows)) r.sent

pub refresh_flows-Refreshes :
    (node : Node) (limit fuel : ℕ) (flows : List (NodeId × LowerFlow))
    → 1 ≤ limit
    → length flows ≤ fuel
    → Refreshes node limit flows (refresh_flows fuel node limit flows)
unfolding refresh_flows values flat renew_all
refresh_flows-Refreshes node limit fuel [] positive enough = record {
  r = record { sent = []; flows = [] };
  ends = ground arith;
  map = refl;
  sends = record { all = refl; fit = tt };
}
refresh_flows-Refreshes node limit zero (f ∷ flows) positive enough = absurd (omega arith)
refresh_flows-Refreshes node limit (suc fuel) (f ∷ flows) positive enough =
    let c = refresh_some node limit (f ∷ flows) in
    let (all, short, sum) = refresh_some-all node limit (f ∷ flows) in
    let taken = takes_one node limit f flows positive in
    let later = refresh_flows-Refreshes node limit fuel c.1 positive (omega arith) in
    let ends = later.ends in
    let l = later.r in
    let map : c.0 ++ l.flows ≡ renew_all node (f ∷ flows) = ap (◌++◌ c.0) later.map ∙ all in
    record {
      r = record { sent = values c.0 ∷ l.sent; flows = c.0 ++ l.flows };
      ends = ground arith;
      map = map;
      sends = record {
        all =
            ap (◌++◌ (values c.0)) (later.sends.all ∙ ap values (sym later.map))
            ∙ sym (values-append c.0 l.flows)
            ∙ ap values map;
        fit =
            ((omega (arith, length-values c.0), omega (arith, length-values c.0)), later.sends.fit);
      };
    }

-- ===== src/Uipcp/Lfdb.antt =====
-- The lower flow database and its next hops, user/uipcps/uipcp-normal-lfdb.cpp and
-- user/uipcps/uipcp-normal-lfdb.hpp. A map is the list of its pairs, in the order of its iteration.
pub mod Maps
pub mod Walks
pub mod Queue
pub mod Settled
pub mod Relaxing
pub mod Improving
pub mod Rounds
pub mod Popping
pub mod Settling
pub mod Paths
pub mod NextHops
pub mod Links
use rlite.Base.{
  ℕ, zero, suc, ◌+◌, ◌-◌, ◌%◌, ◌^◌, Bool, true, false, not, ◌&&◌, ◌||◌, Option, none, some, List,
  [], ◌∷◌, ◌++◌, ltb, leb, ◌==◌, if◌then◌else◌, same_bytes, length,
}

-- `std::string`, as its bytes.
abbrev pub NodeId : Type 0
NodeId = List ℕ

pub record Edge : Type 0 where
  pub to : NodeId
  pub cost : ℕ

pub record DijkstraInfo : Type 0 where
  pub dist : ℕ
  pub nhop : NodeId

-- `gpb::LowerFlow`.
pub record LowerFlow : Type 0 where
  pub local_node : NodeId
  pub remote_node : NodeId
  pub cost : ℕ
  pub seqnum : ℕ
  pub state : Bool
  pub age : ℕ

-- The greatest `unsigned int`: no distance.
abbrev pub dist_max : ℕ
dist_max = 2 ^ 32 - 1

module _ {A : Type 0} where
  unfoldable pub map_find : NodeId → List (NodeId × A) → Option A
  map_find k [] = none
  map_find k ((n, a) ∷ rest) = if same_bytes n k then some a else map_find k rest

  -- `map[k] = a`.
  unfoldable pub map_set : NodeId → A → List (NodeId × A) → List (NodeId × A)
  map_set k a [] = (k, a) ∷ []
  map_set k a ((n, b) ∷ rest) = if same_bytes n k then (n, a) ∷ rest else (n, b) ∷ map_set k a rest

  -- `map[k]`, which is `a` for a key that is not there.
  unfoldable pub map_get : A → NodeId → List (NodeId × A) → A
  map_get a k [] = a
  map_get a k ((n, b) ∷ rest) = if same_bytes n k then b else map_get a k rest

abbrev pub Graph : Type 0
Graph = List (NodeId × List Edge)

abbrev pub Infos : Type 0
Infos = List (NodeId × DijkstraInfo)

unfoldable pub edges_of : Graph → NodeId → List Edge
edges_of graph node = map_get [] node graph

unfoldable pub info_of : Infos → NodeId → DijkstraInfo
info_of info node = map_get (record { dist = 0; nhop = [] }) node info

pub record PqInfo : Type 0 where
  pub node : NodeId
  pub dist : ℕ

-- The priority queue, least distance first. Of entries with the same distance the older is first.
unfoldable pub pq_push : PqInfo → List PqInfo → List PqInfo
pq_push e [] = e ∷ []
pq_push e (f ∷ fs) = if ltb e.dist f.dist then e ∷ f ∷ fs else f ∷ pq_push e fs

-- The nodes' information before the first round.
unfoldable pub init_info : Graph → Infos
init_info [] = []
init_info ((n, es) ∷ rest) = (n, record { dist = dist_max; nhop = [] }) ∷ init_info rest

-- The relaxation rule for the edges of the node `closer`. `info` has each node that an edge leads to, so
-- that `info[edge.to]` adds none.
unfoldable pub relax : NodeId → NodeId → List Edge → Infos → List PqInfo → Infos × List PqInfo
relax source_node closer [] info frontier = (info, frontier)
relax source_node closer (edge ∷ edges) info frontier =
    let info_min = info_of info closer in
    let dist = (info_min.dist + edge.cost) % 2 ^ 32 in
    let nhop = if same_bytes closer source_node then edge.to else info_min.nhop in
    let better = ltb dist (info_of info edge.to).dist in
    relax source_node closer edges
      (if better then map_set edge.to (record { dist = dist; nhop = nhop }) info else info)
      (if better then pq_push (record { node = edge.to; dist = dist }) frontier else frontier)

-- The loop on the frontier, on fuel; `none` if that is not enough.
unfoldable pub search_paths : ℕ → NodeId → Graph → Infos → List PqInfo → Option Infos
search_paths fuel source_node graph info [] = some info
search_paths zero source_node graph info (closer ∷ frontier) = none
search_paths (suc fuel) source_node graph info (closer ∷ frontier) =
    let info_min = record (info_of info closer.node) { dist = closer.dist } in
    let r =
      relax source_node closer.node (edges_of graph closer.node) (map_set closer.node info_min info)
        frontier in
    let rest = search_paths fuel source_node graph r.0 r.1 in
    if closer.dist == dist_max then some info else rest

-- The number of edges.
unfoldable pub size_of : Graph → ℕ
size_of [] = 0
size_of ((n, es) ∷ rest) = length es + size_of rest

unfoldable pub compute_shortest_paths : NodeId → Graph → Option Infos
compute_shortest_paths source_node graph =
    search_paths (suc (size_of graph)) source_node graph (init_info graph)
      (record { node = source_node; dist = 0 } ∷ [])

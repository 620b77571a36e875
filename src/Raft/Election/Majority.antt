-- ===== src/Raft/Election/Majority.antt =====
-- The quorum of user/libs/raft.cpp against a majority of the replicas.
use rlite.Base.{◌+◌, ◌*◌, ◌%◌, ◌≡◌, ◌<◌, ◌≤◌, ◌↔◌, List, length, arith}
use rlite.Raft.Types.{ReplicaId, Server}
use rlite.Raft.Election.{quorum}

-- A quorum is more than half of the replicas, the map of the other ones and this one, exactly when
-- the map holds an even number of replicas. In any case twice a quorum is no less than all.
pub quorum_majority :
    (servers : List (ReplicaId × Server))
    → let replicas = length servers + 1 in
      ((replicas < 2 * quorum servers) ↔ (length servers % 2 ≡ 0)) × (replicas ≤ 2 * quorum servers)
unfolding quorum
quorum_majority servers = ((λ h. omega arith, λ h. omega arith), omega arith)

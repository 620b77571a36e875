-- ===== src/Lib.antt =====
-- rlite, a RINA implementation: models of its program parts, and what is proved of them.
--
-- The replicated state machine of user/libs/raft.cpp and include/rlite/raft.hpp, which the fault-
-- tolerant components of a normal IPC process are built on, is modelled whole but for `shutdown`,
-- the destructor and the text that is logged. Its caller hands it messages and expired timers, and
-- gets back messages to send, timers to set, and calls of its `apply`.
--
--   Raft/Types.antt: the messages, timers and records of include/rlite/raft.hpp. `Term` and
--     `LogIndex` are numbers with their wrap-around at 2 ^ 32 written out.
--   Raft/LogFile.antt: the log file as its bytes, the fail bit of the stream, and the faults
--     that the system may answer an operation with.
--   Raft/Machine.antt: the members of `RaftSM`, with the caller's output, the calls of `apply`,
--     the clock, the random numbers and the coming faults; and the monad of its methods, in
--     which what was written before an error stays written. A result below zero is `failed`,
--     the result 1 of a lookup is `no_entry`, an `assert` is `aborted`.
--   Raft/Steps.antt: what every run of a method keeps, one rule for each way to build one.
--   Raft/Storage.antt: `log_open`, `log_u32_write`, `log_u32_read`, `log_buf_write`,
--     `log_buf_read`, `log_disk_flush`, `magic_check`, `log_entry_get_term`,
--     `log_entry_get_command`, `append_log_entry`, `log_truncate`. Below it, the list of
--     entries that a file stands for.
--   Raft/Election.antt: `vote_for_candidate`, `quorum`, `back_to_follower`, `catch_up_term`,
--     `request_vote_input`.
--   Raft/Replication.antt: `prepare_append_entries` with its two loops, and
--     `apply_committed_entries`.
--   Raft/Acks.antt: `append_entries_resp_input`.
--   Raft/Handlers.antt: `request_vote_resp_input`, `append_entries_input`, `timer_expired`,
--     `submit`. Below it, both ends of an AppendEntries message and the commit index.
--   Raft/Boot.antt: `init`, on a first boot and from a log on disk.
--   Raft/Inputs.antt and Raft/Votes.antt: all inputs as one type, runs of them, and what
--     becomes of terms and votes; Votes/Failing.antt is about a request for a vote on which the
--     log file fails.
--   Raft/Tests.antt: machines at concrete inputs.
--
-- The kernel's normal IPC process routes PDUs with the forwarding table of kernel/normal-common.c.
--
--   Kernel/Pduft.antt: `pduft_lookup_internal`, `rl_pduft_lookup`, `rl_pduft_set`,
--     `pduft_entry_unlink`, `rl_pduft_flush`, `rl_pduft_flush_by_flow`, `rl_pduft_del`,
--     `rl_pduft_del_addr`. An entry is an address, and the state holds what lies there; a hash
--     table is its buckets' lists of addresses; of a flow the state holds the reference
--     counter, and whether its removal is postponed once when that gets to 0. `hash_min` is the
--     kernel's, and a parameter. Below it, what the lookups find after a route is set or the
--     table is flushed, and the references that the table holds.
--   Kernel/Sched.antt: the PDU schedulers of kernel/normal.c, `sched_pfifo_do_config`,
--     `sched_pfifo_enq`, `sched_pfifo_deq`, `sched_wrr_do_config`, `sched_wrr_enq`,
--     `sched_wrr_deq`. A PDU is its QoS identifier and its sizes; the array of queues is a
--     list. The old queues that a configuration frees, and an allocation that fails, are left
--     out. Below it, what queueing and taking out do, and the lengths and credits that they
--     keep.
--   Kernel/Seqq.antt: the sequencing queue of a flow's receiver in kernel/normal.c, `seqq_push`
--     and `seqq_pop_many`, with the member of `struct dtp` that says which number is expected
--     next. `rl_seq_t` has its default width of 32 bits. Below it, the order of the queue and
--     of what comes out.
--   Kernel/Efcp.antt: EFCP in kernel/normal.c, with `struct dtp` of kernel/rlite-kernel.h and
--     `struct rl_flow_config` of include/rlite/common.h in Efcp/Types.antt. Efcp/Receive.antt
--     is the receiver (`ctrl_pdu_alloc`, `sdu_rx_sv_update`, the part of `rl_normal_sdu_rx` for
--     data transfer PDUs, `rl_normal_sdu_rx_consumed`, `a_tmr_cb`, `dtp_rcv_reset`,
--     `rcv_inact_tmr_cb`), Efcp/Send.antt the sender (`rl_rtxq_push`, `flow_blocked`,
--     `rl_normal_flow_writeable`, `rl_normal_sdu_write`), Efcp/Control.antt `sdu_rx_ctrl`, and
--     Efcp/Timers.antt the start of a flow and the timers of its sender (`dtp_snd_reset`,
--     `rl_normal_flow_init`, `snd_inact_tmr_cb`, `rtx_tmr_cb`). A PDU is its numbers, its DRF
--     flag, its size and the user's data; a timer is the time it expires at. The time, the
--     kernel's functions on times, and whether there is memory are an argument, as is the
--     answer of `rmt_tx`. The other files below it are about runs of the receiver (Arrivals,
--     InOrder, Runs, Complete, Starts), of the sender (Opening, Acks, Window, Sending, Writing,
--     Accepted, Resending, Sessions), and of both (Transfer).
--
-- The daemon of a normal IPC process floods the lower flows of its DIF, and computes from them
-- which neighbor a PDU goes to. A map is the list of its pairs in the order of its iteration.
--
--   Uipcp/Lfdb.antt: `compute_shortest_paths` of user/uipcps/uipcp-normal-lfdb.cpp, with its
--     priority queue. In Lfdb/NextHops.antt `find` and `compute_next_hops`, with the loop free
--     alternates. The other files below it are about walks in the graph and their costs, the
--     queue and what it still holds, and when a node is settled (Maps, Walks, Queue, Settled,
--     Relaxing, Improving, Rounds, Popping, Settling, Paths), and about the graph that is built
--     (Links).
--   Uipcp/Hops.antt: no definitions of the source, but what follows from the parts of Lfdb for
--     `compute_next_hops` as a whole: the graph that is built, and the first hops that are
--     filled in.
--   Uipcp/LinkState.antt: `add`, `del`, `age_incr`, `neigh_disconnected` and the loop of
--     `rib_handler` of user/uipcps/uipcp-normal-lower-flows.cpp. What is sent to the neighbors
--     is a result. Below it, what the database keeps, and databases that were told the same
--     flows.
--   Uipcp/LinkState/Flooding.antt: `sync_neigh` and `neighs_refresh`. A message is the list of
--     its flows.
--   Uipcp/Forwarding.antt: the `RoutingEngine`, with `compute_fwd_table` and
--     `flow_state_update`. The calls to the kernel are a result, and which of them it refuses
--     is an argument; so are the neighbors with the ports of their flows, and the addresses of
--     nodes. Below it, what the calls make of a table in the kernel.
--   Uipcp/Tests.antt, Uipcp/LinkState/Tests.antt, Uipcp/Forwarding/Tests.antt,
--     Uipcp/Hops/Tests.antt: graphs and databases at concrete inputs.
--
-- Bounds and fuel. The loop that fills one message has fuel for 252 entries: an entry takes four
-- bytes at least, and the loop stops after more than 1000 bytes. The loop over the messages to one
-- server has one round more than the log has entries, and each round moves on by one entry at
-- least. The loops over a hash table run over its 8 buckets, those of the schedulers over the
-- number of classes. The loop for the commit index has as many rounds as indices are left. The
-- loop of `neighs_refresh` has as many rounds as the node has flows: each message takes one at
-- least. The search for shortest paths has as many rounds as the graph has edges, and one more: a
-- round takes an entry out of the queue, and an edge puts an entry there once at most, when its
-- first node is taken out for the first time. Theorems that add 1 to an index or a term say that
-- it stays below 2 ^ 32. The sequence numbers of EFCP have 64 bits in its state and 32 on the
-- wire, and the theorems say that they stay below the last of 32 bits. The wait for tokens of a
-- write is over a list of the times that its rounds find; the write has no result if it still
-- sleeps at the end of the list.
--
-- What the system does is a parameter: each operation on the log file takes the next of a list of
-- faults, one of which loses what a flush does not get to the file, where the end of the list
-- means that it works, and `rand()` takes the next of a list of numbers, or 0. Theorems that speak
-- of a log file that works take the empty list; those on terms and votes hold for all lists. The
-- time of a call is a number of milliseconds. A `submit` without an output is not caught by the
-- source, and does nothing to the output here.
--
-- Not modelled: the rest of the kernel module, among it the addresses, lifetimes and checksums of
-- headers, the relaying of PDUs to lower flows, the queue of the user's read calls, and the
-- removal of a flow whose reference counter stays at 0, the management daemons but for link state
-- routing (of which the delay of a computation and static routing are left out), the CDAP library,
-- the tools and all else of the repository.
pub mod Base
pub mod Kernel
pub mod Raft
pub mod Uipcp

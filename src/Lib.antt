-- ===== src/Lib.antt =====
-- ConsensusArena: consensus engines over a replicated key-value store.
--
-- The repository has one package for each consensus engine (paxos, fastpaxos, epaxos, curp, swift,
-- kcensus, bodega, pql). An engine is a `core` that a replica's event loop drives: client requests,
-- packets and ticks go in, one at a time, and packets and client replies come out by callbacks. The
-- engines share the command language and the store of package state, and the replica sets of
-- package replicaset, in which they count votes.
--
-- Files:
--   Prelude            library names, tests, lists, int64 arithmetic, maps and bits.
--   ReplicaSet         replicaset/set.go, every operation, on the uint64 that Go stores. Members has
--                      the membership laws, Quorums the counting ones, Iteration the visits.
--   State              state/state.go: the command language and `Conflict`. Tree is the interface of
--                      the ordered map (gods/maps/treemap) with its documented laws, Store
--                      `Execute`, Commute the theorem on commands that do not conflict, Wire the
--                      wire format, Policy state/validation.go, Preload `Preload`.
--   Paxos              paxos: Defs has the data of core.go, defs.go and messages.pb.go, Normal the
--                      admission, acceptance, votes and execution of core.go and execute.go,
--                      Recovery all of recovery.go, Events `receive`, `tick` and the adapter of
--                      replica.go. Keeps, Monotone, Elections, Selection, Survival, Commits, Votes and
--                      Paging have the proofs.
--   FastPaxos          fastpaxos: Defs has the data and helpers of defs.go and messages.pb.go, Choice
--                      `selectValue` of recovery.go, Core and Normal the state of core.go, its
--                      methods up to `flush` and execute.go, Recovery the rest of recovery.go, Ticks
--                      `tick`, Requests the cases Accept, Heartbeat and Fetch of `receive`, Events the
--                      rest of `receive` and the adapter of replica.go. Quorums, Selected, Support,
--                      Candidates and Fallback have the proofs on quorums and the choice, Keeps and
--                      Monotone those on sequences of events.
--   Curp               curp: Conflicts has the index of conflicts.go, Defs the state of core.go, Normal
--                      the admission with witness records, acceptance, votes and execution of core.go
--                      and execute.go, Recovery all of recovery.go, Events `receive`, `tick` and the
--                      adapter of replica.go, Client the completion of client.go; what it shares with
--                      package paxos is taken from Paxos.
--                      Counts, Indexed and Exact have the proofs on the index, Witness and Commuting
--                      those on the witness records, Survival the one on fast completion, Keeps and
--                      Monotone those on sequences of events.
--   Swift              swift/quorum.go: Quorums has every operation on quorum families and ballots,
--                      Families the proofs.
--   Tests              runs and witnesses at concrete inputs.
--
-- A method of Go that changes its receiver is a function from the old state to the new one, and a
-- panic is `none`. The callbacks of a core append to its list of outputs; a send to itself, which the
-- event loop hands back to the core within the call, is that call (receive_ack, receive_promise,
-- receive_prepare). The execute callback is a parameter with a store of its own. The event loop
-- handles one event at a time, so a handler is one step.
--
-- Numbers: int64 slots and ballots are integers whose sums are wrapped by `int64`; counters wrap at
-- 2 ^ 64; times are nanoseconds, and a time that goes backwards counts as no time passed. A map is
-- an association list: Go leaves the order of iteration open, the model goes by the list.
--
-- Fuel: a loop over slots takes the number of slots between its bounds. The loop of `apply` takes
-- one round more than the log has records, the loop of `Range` at most 64 rounds, and the loop that
-- fills a preloaded value a round for each byte.
--
-- Not modelled: epaxos, kcensus, bodega and pql, and of swift all but quorum.go; the event
-- loop, the network and the clients, which are input and output; the configuration and placement,
-- which compute with floating-point latencies; the marshalling, which is generated code.
pub mod Prelude
pub mod ReplicaSet
pub mod State
pub mod Paxos
pub mod FastPaxos
pub mod Curp
pub mod Swift
mod Tests

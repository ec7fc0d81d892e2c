-- ===== src/Lib.antt =====
-- tdns-mp: the coordination of a DNSSEC-signed zone among several DNS providers.
--
-- An agent at each provider reads the zone owner's instructions (HSYNC3 and HSYNCPARAM records),
-- finds the other providers' agents, keeps beats and gossip going with them, and drives the zone's
-- keys through a lifecycle that waits for the other providers. A change of the instructions is
-- judged before it is carried out. The parts below are modelled from the Go source under v2/.
--
-- Files and the code they model:
--   Prelude        shared helpers: tests, lists, Go strings as octets, slices.Sort and Compact
--   Names          core.EqualNames, core.CanonicalizeName and dns.Fqdn, which are not in this
--                  repository: a record of operations with their documented laws
--   Lifecycle      v2/mp_key_lifecycle.go: the states and their columns (KeyStateColumns), the
--                  guards, KeyLifecycleTable and Next, rolloverUnderWay
--   Instructions   v2/instructions.go and the standings of v2/provider_groups.go; Encoding has the
--                  octets that Digest and ComputeGroupHash hash (the hash itself is not modelled)
--   Judge          v2/transition_judge.go: judge, one function for each of its loops and tests
--   Hsync          v2/hsync/beat_schedule.go: the pace of the beat rounds; and the notes
--                  of failed beats and beats back of v2/hsync/beat_retry.go;
--                  the registry, ReconcileZone and pruneUnsharedPeers of v2/hsync/registry.go and
--                  v2/hsync/reconcile.go
--   Gossip         v2/gossip.go: the table (GossipStateTable), MergeGossip and mergeGossipAs, the
--                  gate (CheckGroupState, with withoutExcused of v2/instr_thaw.go), the own rows
--                  and BuildGossipForPeer; its types are those of v2/hsync/gossip.go and
--                  v2/gossip_types.go
--   Election       v2/parentsync_leader.go: the election of a provider group's leader; its state
--                  (LeaderElection) is that of v2/gossip_types.go. An operation returns the manager
--                  and its effects: messages, the goroutine of determineAndConfirmGroup, callbacks.
--                  Network is the whole group: what was sent may come late, twice, in any order or
--                  never, and a timer, which is the term it was armed in, may fire at any time.
--                  A term is a uint64: a message's is read by parseUint64, which gives 2 ^ 64 - 1
--                  for what is too large, and the term after the last one is 0 (next_term). What
--                  is shown of terms over a time assumes that no election is started from the
--                  last term
--   Senders        v2/sender_rule.go: the refusals of a message by its sender, and their order in
--                  routerMiddleware of v2/hsync_transport.go
--   Stamps         v2/instr_stamp.go: which zones a beat tells the stamps of: their ranks (the
--                  loop of entryFor) and what has room (fillEntry)
--   KeyRounds      v2/key_rounds.go: the rounds of requests for a zone's SIG(0) key
--   Journal        v2/error_journal.go: the journal of errors
--
-- An operation that takes the time gets it as an argument, and one that calls a hook returns what
-- the hook is called with. A function under a lock is one step.
--
-- Conventions. A Go string is the list of its octets. A time.Time is a number of nanoseconds, with
-- `none` for the zero time in Lifecycle and Hsync.Schedule; in Gossip, Election, Stamps,
-- KeyRounds, Journal and Hsync.Prune it counts from the zero time, which is 0. A time.Duration is a number of nanoseconds;
-- neither overflows (int64 nanoseconds are 292 years, and every wait of the program is at most
-- days). A map is the list of its entries, each key once. A nil pointer is `none`. Pure logging is
-- left out. Where the source sorts strings by a library sort, the model inserts them one by one:
-- equal strings cannot be told apart, so every sort has the one result. slices.SortStableFunc is
-- a stable insertion sort; the zones that fillEntry sorts by their keys have different keys.
--
-- No definition takes fuel: every loop modelled here is a recursion on the list that it walks.
--
-- Not modelled: the database, the transport, the DNS library, the command line, the web pages, and
-- the parts of the daemons that PROJECT.json lists as not modelled.
pub mod Prelude
pub mod Lifecycle
pub mod Senders
pub mod Names
pub mod Instructions
pub mod Judge
pub mod Hsync
pub mod Gossip
pub mod KeyRounds
pub mod Journal
pub mod Election
pub mod Stamps

-- ===== src/Lib.antt =====
-- FlexGAS: the virtual machine's scheduler daemon, its agent daemon and the recursion scheduler.
--
-- The scheduler (src/vivm/sched) keeps tables of jobs, groups, devices and PEs. Programs send it
-- requests through the API (`saa_req`), agents (src/vivm/agent) send it theirs (`sag_req`), and a
-- scheduling library (src/vivm/schedlib) waits for its events and answers with calls of its own
-- API, which the scheduler turns into requests to the agents. An agent keeps tables of the same
-- shape.
--
-- The files:
--   Prelude       names of the libraries, tests on numbers and byte strings, list functions
--   Container     src/common/ts_map.h, and `AtomicVector` and `AtomicMap` of
--                 src/vivm/schedlib/sl_recursion/rec_internal.h, over an association list and a list
--   Sched.Types, Sched.Requests
--                 the structures of src/vivm/sched/sched_internal.h, sched_api.h, sched_req_common.h,
--                 sched_api_export.h and sched_agent_export.h
--   Sched.World   the state (`World`), the runs over it, the heaps, the mutexes and the channels
--   Sched.Find, Sched.Jobs, Sched.Groups, Sched.Devices, Sched.Pes, Sched.Events, Sched.Memory
--                 src/vivm/sched/sched_helpers.h, Sched.Events also the handles of sched_api.cpp
--   Sched.Api     src/vivm/sched/sched_api.cpp: devices, PEs, the exchange of requests with agents
--   Sched.Local   src/vivm/sched/sched_local_handler.cpp and SchedLocalHandler::Execute of
--                 sched_threads.cpp
--   Sched.Remote  src/vivm/sched/sched_remote_handler.cpp and SchedRemoteHandler::Execute of
--                 sched_threads.cpp
--   Agent.Remote, Agent.Spawn
--                 src/vivm/agent/agent_remote_handler.cpp
--   Agent.Local   src/vivm/agent/agent_local_handler.cpp, without HandleMemMap
--   Agent.Window  the transfers of src/vivm/agent/agent_threads.h
--   Recursion     src/vivm/schedlib/sl_recursion/rec_sched.cpp: Resources the search and the release,
--                 Rounds the routine of a group
--   Links.Memory  the bytes of a process, and structures written byte by byte
--   Links.Inet    src/lm/lminet.h, lminet_handler.h, lminet_handler.cpp and lminet_sendrecv.cpp:
--                 Types the structures, Host the state and the calls of the system, Queues the
--                 queues and the table, Requests and Peer the two sides of a connection, Rounds the
--                 handler's loop, Api the calls of the programs, Transfer two hosts and the network
--   Links.Shm     src/lm/lmshm.h, lmshm_sendrecv.cpp (Transfers, Completions, Api; Delivery, Pieces,
--                 Waiting and Failures prove) and lmshm_shm.cpp (Segments)
--   Links.Rdma    src/lm/lmib_sendrecv.cpp
--   Links.Channel src/ch/channel.h, channel_internal.cpp, channel_sendrecv.cpp (Messages) and
--                 channel_remote.cpp (Regions, Remote), over the interface `LinkCalls` of the links
--   Tests         runs on one small system, one for each result
--
-- A definition has the name of its function in lower case with underscores; a member of a handler
-- class takes the handler and gives it back, with the return value `ret_ok` for 0 and `ret_err`
-- for -1. A pointer is a number under which an object lives in a heap of `World`. A run is `done`
-- with a value and a state, a `fault` where a NULL or dangling pointer is followed or a mutex is
-- unlocked that is not held, or `blocked` where a held mutex is locked again. A mutex's place in
-- `held` is its kind and its owner. One thread runs at a time; where a function waits for another
-- thread, the argument `others` is what the other threads do to the state between two looks, and
-- `rounds` is how often it looks: the source looks 2000000000 times in await_pe, and without end
-- in poll_ack, which is `blocked` when the rounds are used up. Any number of rounds beyond the
-- look that finds what they wait for is enough. The rounds of a group's routine are fuel as well:
-- one for each PE that is missing, and one more, are enough where every spawn works. The loops of
-- the handler threads take the number of requests that they serve as fuel; the whole connections
-- below need two. create_pes looks `looks` times, 1000000000 in the source, before each of its
-- `retries` new rounds.
--
-- For the daemons, each call of the channel layer takes its result from a list in `World.net`, so
-- a theorem holds for every sequence of results (so does `fork`), a message sent is recorded in
-- `sent`, and the channels that chRecv, chRecvMr and chClose were called on in `heard` and `closed`. Identifiers are 32 bits wide and wrap around, as do the addresses of the transfers,
-- which are 64 bits wide.
--
-- The socket link has a state of its own, `Host`, one for each process. A connection is a value of
-- the table, a request an object under its pointer, and its header on the wire is its 48 bytes. The
-- source sends the structure as it lies in memory; `encode` and the functions `preq_` that read it
-- are its layout as the usual 64-bit compilers make it, the lowest byte of a number first, and
-- translate no function. Addresses in the memory of a process are not bounded. A socket holds what the next calls of send and recv will give,
-- `none` for -1 or the number of bytes that the kernel is ready to move; no call moves more than it
-- was asked to. The two hosts of `System` run in any order, with a network that carries bytes in
-- order. A lock lasts for one operation on a queue. `rounds` is how often lmInetWaitComp looks, and
-- how many rounds of the handler are watched, both without end in the source; one look for each
-- completion that stands before the awaited one, and one more, are enough.
--
-- The shared-memory link has the state `Process`, of the same make; its calls of the system succeed
-- or fail as lists in the state say.
--
-- Not modelled: the connections of channels and links (src/ch/channel.cpp,
-- src/lm/lminet_connection.cpp, lmshm_connection.cpp, lmib_connection.cpp) and the remote
-- operations of the RDMA link, which are calls of the system and of the verbs library, threads and
-- start-up, tracing, the client API (src/vivm/api), HandleMemMap of the agent, what a forked
-- process does before it registers, the simple scheduler (src/vivm/schedlib/sl_simple).
mod Prelude
pub mod Container
pub mod Sched
pub mod Agent
pub mod Links
pub mod Recursion
mod Tests

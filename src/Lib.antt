-- ===== src/Lib.antt =====
-- managed-linux-democracy: an election for the process that a Linux machine runs. Three programs
-- work together. ballot_box is a web service that counts votes for one of two sides. The
-- democracy-scheduler starts a process for each side, asks the service again and again who leads,
-- and gives the leader's process a turn of the CPU through its part in the kernel. thingdoer is the
-- program that the two processes run.
--
-- Which file models what
--   Ballot      ballot_box/src/main.rs. State has `AppContext` and the data of requests and
--               replies; Vote `check_vote`; Handler `vote_handler` and `votes_handler` as single
--               calls; Concurrent the steps of several calls of `vote_handler`, one shared access
--               each; Reading those of calls of `votes_handler` among them; System
--               `system_handler` and `get_local_ipv4_address`; Static `static_handler`; Address the
--               texts of IPv4 addresses; Routes the table of routes; Server the address to listen
--               on and the answer to a request; Server/Tasks the tasks of requests that are served
--               at once; Logger `init_logger`, and Server/Main the whole of `main`. Replies, Trace,
--               Verdict, Limits, Quota, Electorate, Commuting, Tally, Calls, Sequential, Interleavings,
--               Finishing, Closing, Room, Reading/Bounds, Reading/Order, Reading/Torn, OwnVote,
--               Static/Extension, Server/Answers, Server/Counts, Server/Files, Server/Group,
--               Server/History, Server/Listening, Server/Serving, and Adequacy, Answering,
--               Beginning, Conservation and Readers of Server/Tasks hold their proofs.
--   Scheduler   democracy-scheduler/src/main.rs. Competitors has `Competitors::from_str`; Winner
--               `get_current_winner`; Connector what the scheduler uses of the connection to the
--               kernel; Drain the first loop of `schedule`; Schedule the rest of it; Main `run`,
--               `launch_process` and the loop of `main`; Logger `init_logger`; Start `Scheduler::init`
--               and `main`, with what a start leaves behind. Chain has the induction over the rounds
--               of `run`. Ledger says what run times a history of rounds leaves, and Script what turns
--               it sends; Accounts proves both, with Entries for one round. Invariant, Choice,
--               Decision, Follows, Rounds, Charges, Repeats, Owners, Progress, Governing, Shutdown, Ready,
--               Teardown and Whole hold the other proofs, and Arrivals that of the first loop over the
--               bytes of the ring.
--   Election    what the scheduler's question to the service comes to; Polls goes back to the
--               requests, Turns on to the turn that is sent, Reign over the rounds of `run`;
--               Democracy goes from the requests to the turns, and so does Mandate, where the tasks
--               of both sides are there; Margin is about questions while votes come in, Landslide
--               about the rounds of the scheduler then, Overflow about tallies that it cannot read
--               any more, and Integrity about what a group of voters can change.
--   Bpf         democracy-scheduler/src/bpf.rs. Task and Message have the tasks and their messages,
--               with Message/Inverse; Connection `BpfScheduler` with `dequeue_task`,
--               `dispatch_task` and `update_tasks`; Counters the accessors, with Counters/Apart;
--               Init `init` and `use_sched_ext`, with Init/Success and Init/Settling; Lifetime
--               `exited`, `shutdown_and_report` and `drop`. Views, Dequeue, Dispatch and Implements
--               fill the interface of Scheduler/Connector.
--   Thingdoer   thingdoer/src/main.rs. Loop has `main`, and Lines the proof about it.
--   Logging     what `init_logger` of ballot_box and of the democracy-scheduler have in common.
--   Prelude     numbers, words, text, maps and results that the others share.
--   Tests       runs at concrete inputs.
--
-- How state and errors are modelled. A shared state is a record that the operations take and return.
-- `Result` is the source's, and `Outcome` adds the panic. A `HashMap` or `DashMap` is an association
-- list, read and written by key only. Words are native numbers with the wrap or the panic of their
-- overflow written out, as `Profile` says for a build with or without overflow checks. A `String`
-- that the code reads is its list of code points.
--
-- What stands outside is a parameter, with its documented behaviour as named laws: `Unicode` the
-- case tables behind `str::to_lowercase`; `Json` serde_json on both sides of the question for the
-- tallies; `Axum` the router of axum, and `Surroundings` with it the bodies of votes and the files;
-- `Net` the listeners of tokio; `Tracing` the filters and the subscriber of tracing_subscriber;
-- `ExitInfo` the macros of scx_utils that read the exit of the kernel's part; `Libbpf` the ring
-- buffers of libbpf_rs, and plain; `Host` the load, the attachment and the system calls of `init`;
-- `World` the shutdown flag and the service's answers, load by load; `Outside` the crates and
-- system calls of thingdoer. The embedded files, the table of MIME types, the network interfaces
-- and the start of a process are arguments.
--
-- Fuel and bounds. The first loop of `schedule` has fuel for its rounds, and one more than the queue
-- has entries is enough, since each round takes one. Messages that arrive while the loop runs belong
-- to the queue that it finds. `run` and the loop of `main` have fuel for the loads of the shutdown
-- flag. Run times are bounded so that a second for each round does not overflow 2 ^ 64. Interleaved
-- calls of the service are sequences of steps, and each atomic operation takes effect at once: the
-- operations are relaxed, so an order between the two tallies' loads is assumed that the source does
-- not ask for.
--
-- Not modelled: the scheduler's part in the kernel (democracy-scheduler/main.bpf.c), which is C; the
-- files that the build generates (bpf_intf.rs, bpf_skel.rs); the text of the logs, and sleeping; the
-- listening itself, and the text of what axum refuses on its own; the web page; and the copies of
-- bpf.rs at the repository's root, which no crate includes.
pub mod Prelude
pub mod Logging
pub mod Ballot
pub mod Scheduler
pub mod Election
pub mod Bpf
pub mod Thingdoer
mod Tests

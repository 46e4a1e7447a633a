-- ===== src/Ballot.antt =====
-- ballot_box/src/main.rs: the web service that collects the votes.
pub mod State
pub mod Logger
pub mod Vote
pub mod Handler
pub mod Verdict
pub mod Replies
pub mod Trace
pub mod Limits
pub mod Quota
pub mod Electorate
pub mod Commuting
pub mod Tally
pub mod Concurrent
pub mod Calls
pub mod Sequential
pub mod Closing
pub mod Interleavings
pub mod Finishing
pub mod Room
pub mod Reading
pub mod OwnVote
pub mod Address
pub mod System
pub mod Static
pub mod Routes
pub mod Server

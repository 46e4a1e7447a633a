-- ===== src/Tests.antt =====
-- Runs of the code on concrete inputs, and the theorems at inputs that meet their hypotheses.
mod Kernel
mod Service
mod Interleaved
mod Mandate
mod Landslide
mod Startup
mod Integrity
mod Rounds
mod Accounts
mod Links
mod Whole
mod Teardown
mod Router
mod Web
mod Tasks
mod Democracy

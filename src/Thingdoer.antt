-- ===== src/Thingdoer.antt =====
-- thingdoer/src/main.rs: the program that the scheduler gives the CPU to.
pub mod Loop
pub mod Lines

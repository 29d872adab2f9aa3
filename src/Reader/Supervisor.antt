-- ===== src/Reader/Supervisor.antt =====
-- `ReaderSupervisor` of bridgewire/reader.py. What its constructor is given is a `Host`, a record of
-- operations on a world `W`; a callback sees the supervisor, and does not change it.
pub mod State
pub mod Effects
pub mod Connect
pub mod Read
pub mod Keeps

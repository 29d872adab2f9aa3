-- ===== src/Reader.antt =====
-- bridgewire/reader.py, and the record builder of bridgewire/simulation.py. A `bytes` is a list of
-- numbers below 256, and a `str` whose characters are inspected is its list of code points.
pub mod Simulated
pub mod Record
pub mod Stream
pub mod Discovery
pub mod Backoff
pub mod Supervisor

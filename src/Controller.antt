-- ===== src/Controller.antt =====
-- bridgewire/controller.py: the access controller, over the ports that its constructor is given.
pub mod State
pub mod Tracing
pub mod Effects
pub mod Operations

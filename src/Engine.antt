-- ===== src/Engine.antt =====
-- src/recovery_engine.c and src/recovery_engine.h: two copies of a transport stream, one delayed
-- output, and the recovery of what the primary copy lost from the secondary one.
pub mod State
pub mod History
pub mod Queue
pub mod Match
pub mod Output
pub mod Input
pub mod Alignment
pub mod Pcr
pub mod Outage
pub mod Boundary
pub mod Recovery
pub mod Reachable
pub mod Drain
pub mod Init
pub mod Push

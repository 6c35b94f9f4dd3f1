-- ===== src/Server/Lock.antt =====
-- src/uds_security.c within src/uds_server.c: what the whole server makes of SecurityAccess.
pub mod Protection
pub mod BruteForce
pub mod Admission
pub mod LockoutTimer
pub mod Sound
pub mod Lives
pub mod Refinement
pub mod Reboot
pub mod Isolation
pub mod PowerLoss
pub mod PowerCuts

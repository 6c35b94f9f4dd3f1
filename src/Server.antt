-- ===== src/Server.antt =====
-- src/uds_server.c: the server that owns the components.
pub mod State
pub mod Services
pub mod Process
pub mod Machine
pub mod Thread
pub mod Width
pub mod Frames
pub mod Quiet
pub mod Residue
pub mod Flashing
pub mod Programming
pub mod Answers
pub mod Functional
pub mod Arming
pub mod Supervision
pub mod Guards
pub mod Timeout
pub mod Replies
pub mod Startup
pub mod DynamicRead
pub mod OneAnswer
pub mod Lock

-- ===== src/Platform.antt =====
-- What the program calls and does not implement: Zephyr, and the application behind the hooks of
-- include/zephyr/canbus/uds_app_interface.h.
mod Hooks
pub mod WeakDefaults
pub use Hooks.*

-- ===== src/Server/Timeout.antt =====
-- src/uds_session.c and src/uds_flash_pipeline.c: what the S3 timeout does not end.
use zephyr_uds.Base.{ℕ, ◌+◌, ◌-◌, ◌≤◌, ◌≡◌, ◌≢◌, false, [], ◌∷◌, u8, u32, Buffer, slice, arith}
use zephyr_uds.Types.{default_session, locked, brute_force_lockout, success, send, physical}
use zephyr_uds.Platform.{Config, Os, App}
use zephyr_uds.Session
use zephyr_uds.Flash
use zephyr_uds.Flash.{is_idle}
use zephyr_uds.Server.State.{Server}
use zephyr_uds.Server.Services
use zephyr_uds.Server.Process.{transfer_data, serve}
use zephyr_uds.Server.Machine.{s3_expires, step}

module _ {W : Type 0} (c : Config) (os : Os W) (app : App W) where
  -- The flaw: a transfer survives the timeout. In the default session and with access locked, the
  -- block that is due is still written to the flash, and acknowledged, if the
  -- application writes it.
  pub transfer_survives_timeout :
      (s : Server W) (req : Buffer) (len : ℕ)
      → s.session ≢ default_session
      → s.security.status ≢ brute_force_lockout
      → is_idle s.flash.pipeline_state ≡ false
      → 3 ≤ len
      → req 1 ≡ s.flash.expected_block_counter
      → (app.flash_write_block s.world
          (u32 (s.flash.memory_address + s.flash.bytes_received))
          (slice 2 (len - 2) req)).1
        ≡ success
      → let s' = (step c os app s s3_expires).0 in
        let offset = u32 (s.flash.memory_address + s.flash.bytes_received) in
        let wrote = app.flash_write_block s.world offset (slice 2 (len - 2) req) in
        let (s'', calls) = serve c os app transfer_data physical s' req len in
        (s'.session ≡ default_session)
        × (s'.security.status ≡ locked)
        × (s''.world ≡ wrote.0)
        × (calls ≡ send (u8 (req 0 + 0x40) ∷ req 1 ∷ []) ∷ [])
  unfolding step Session.s3_timer_expiry serve Services.transfer_data Flash.transfer_data
  transfer_survives_timeout s req len h k busy long due fine =
      (ground arith, ground arith, ground arith, ground arith)

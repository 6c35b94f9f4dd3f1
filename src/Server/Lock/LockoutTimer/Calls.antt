-- ===== src/Server/Lock/LockoutTimer/Calls.antt =====
-- src/uds_security.c within src/uds_server.c: which calls of the services start and stop the
-- lockout timer.
use zephyr_uds.Base.{ℕ, ◌≡◌, Bool, Buffer, arith}
use zephyr_uds.Types.{Addressing}
use zephyr_uds.Timing.{is_lockout, armed_after}
use zephyr_uds.Platform.{Config, Os, App}
use zephyr_uds.Security
use zephyr_uds.Security.{Security, is_locked_out, sector_count}
use zephyr_uds.Session
use zephyr_uds.Flash
use zephyr_uds.Routine
use zephyr_uds.ClearDtc
use zephyr_uds.ReadDtc
use zephyr_uds.DynamicDid
use zephyr_uds.Periodic
use zephyr_uds.Periodic.{Periodic}
use zephyr_uds.Reset
use zephyr_uds.WriteDid
use zephyr_uds.IoControl
use zephyr_uds.Server.State.{Server}
use zephyr_uds.Server.Services
use zephyr_uds.Server.Process.{
  Service, session_control, security_access, io_control, request_download, transfer_data,
  transfer_exit, serve,
}

module _ {W : Type 0} (c : Config) (os : Os W) (app : App W) where
  -- A service arms the timer exactly where it starts a lockout, and none ends one.
  pub serve-arms :
      (v : Service) (a : Addressing) (s : Server W) (req : Buffer) (len : ℕ) (b : Bool)
      → b ≡ is_locked_out s.security.status
      → let (s', calls) = serve c os app v a s req len in
        armed_after is_lockout b calls ≡ is_locked_out s'.security.status
  unfolding serve
  serve-arms session_control a s req len b h =
      unfold Services.session_control Session.set Session.refresh_timer Security.reset_lock in
      ground arith
  serve-arms Service.ecu_reset a s req len b h =
      unfold Services.ecu_reset Reset.handle in ground arith
  serve-arms Service.clear_dtc a s req len b h =
      unfold Services.clear_dtc ClearDtc.handle in ground arith
  serve-arms Service.read_dtc a s req len b h =
      unfold Services.read_dtc ReadDtc.handle ReadDtc.by_status_mask ReadDtc.stored_data in
      ground arith
  serve-arms Service.read_did a s req len b h =
      unfold Services.read_did Services.answer_read in ground arith
  serve-arms security_access a s req len b h =
      unfold Services.security_access Security.handle_request Security.request_seed
        Security.generate_seed Security.send_key Security.grant Security.count_failure in
      ground arith
  serve-arms Service.write_did a s req len b h =
      unfold Services.write_did WriteDid.handle in ground arith
  serve-arms Service.periodic a s req len b h =
      unfold Services.periodic Periodic.handle in ground arith
  serve-arms Service.define_dynamic_did a s req len b h =
      unfold Services.define_dynamic_did DynamicDid.define in ground arith
  serve-arms io_control a s req len b h =
      unfold Services.io_control IoControl.handle in ground arith
  serve-arms Service.routine_control a s req len b h =
      unfold Services.routine_control Routine.handle_control Routine.start
        Routine.request_results in
      ground arith
  serve-arms request_download a s req len b h =
      unfold Services.request_download Flash.request_download Flash.start_download in ground arith
  serve-arms transfer_data a s req len b h =
      unfold Services.transfer_data Flash.transfer_data in ground arith
  serve-arms transfer_exit a s req len b h =
      unfold Services.transfer_exit Flash.transfer_exit in ground arith
  serve-arms Service.response_on_event a s req len b h =
      unfold Services.response_on_event in ground arith
  serve-arms Service.tester_present a s req len b h = unfold Services.tester_present in ground arith
  serve-arms Service.other a s req len b h = ground arith

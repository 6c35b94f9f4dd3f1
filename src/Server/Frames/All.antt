-- ===== src/Server/Frames/All.antt =====
-- src/uds_server.c: how long the frames of each service are.
use zephyr_uds.Base.{ℕ, ◌≤◌, ◌≡◌, true, all, Buffer, arith}
use zephyr_uds.Types.{Addressing}
use zephyr_uds.Platform.{Config, IsConfig, Os, App}
use zephyr_uds.Security
use zephyr_uds.Security.{Security}
use zephyr_uds.Session
use zephyr_uds.Flash
use zephyr_uds.Routine
use zephyr_uds.ClearDtc
use zephyr_uds.DynamicDid
use zephyr_uds.DynamicDid.{DynamicDidMap, Filling}
use zephyr_uds.Periodic
use zephyr_uds.Periodic.{Periodic}
use zephyr_uds.Reset
use zephyr_uds.WriteDid
use zephyr_uds.IoControl
use zephyr_uds.Server.State.{Server}
use zephyr_uds.Server.Services
use zephyr_uds.Server.Services.{did_header}
use zephyr_uds.Server.Process.{
  Service, session_control, security_access, io_control, request_download, transfer_data,
  transfer_exit, read_did, read_dtc, serve,
}
use zephyr_uds.Server.Width.{IsDynamic}
use zephyr_uds.Server.Frames.{fits, Roomy, read_did-fits, read_dtc-fits, seed-fits}

module _ {W : Type 0} (c : Config) (os : Os W) (app : App W) where
  -- Each service, whatever the request.
  pub serve-fits :
      IsConfig c
      → Roomy app
      → 258 ≤ c.buff_size
      → (v : Service) (a : Addressing) (s : Server W) (req : Buffer) (len : ℕ) → IsDynamic s.dyn_map
      → all (fits c.buff_size) (serve c os app v a s req len).1 ≡ true
  unfolding serve
  serve-fits v h room session_control a s req len k =
      unfold Services.session_control Session.set Session.refresh_timer in ground arith
  serve-fits v h room Service.ecu_reset a s req len k =
      unfold Services.ecu_reset Reset.handle in ground arith
  serve-fits v h room Service.clear_dtc a s req len k =
      unfold Services.clear_dtc ClearDtc.handle in ground arith
  serve-fits v h room read_dtc a s req len k = read_dtc-fits c os app h room s req len
  serve-fits v h room read_did a s req len k = read_did-fits c os app h room s req len k
  serve-fits v h room security_access a s req len k =
      unfold Services.security_access Security.handle_request Security.send_key Security.grant
        Security.count_failure in
      ground (arith, seed-fits c os app v room s.world s.security req len s.tx_buf)
  serve-fits v h room Service.write_did a s req len k =
      unfold Services.write_did WriteDid.handle in ground arith
  serve-fits v h room Service.periodic a s req len k =
      unfold Services.periodic Periodic.handle in ground arith
  serve-fits v h room Service.define_dynamic_did a s req len k =
      unfold Services.define_dynamic_did DynamicDid.define in ground arith
  serve-fits v h room io_control a s req len k =
      unfold Services.io_control IoControl.handle in ground arith
  serve-fits v h room Service.routine_control a s req len k =
      unfold Services.routine_control Routine.handle_control Routine.start
        Routine.request_results in
      ground arith
  serve-fits v h room request_download a s req len k =
      unfold Services.request_download Flash.request_download Flash.start_download in ground arith
  serve-fits v h room transfer_data a s req len k =
      unfold Services.transfer_data Flash.transfer_data in ground arith
  serve-fits v h room transfer_exit a s req len k =
      unfold Services.transfer_exit Flash.transfer_exit in ground arith
  serve-fits v h room Service.response_on_event a s req len k =
      unfold Services.response_on_event in ground arith
  serve-fits v h room Service.tester_present a s req len k =
      unfold Services.tester_present in ground arith
  serve-fits v h room Service.other a s req len k = ground arith

-- ===== src/Server/OneAnswer.antt =====
-- src/uds_server.c and the handlers: how many answers a request gets before the handler returns.
use Prim.Native.Nat.{bit_and}
use zephyr_uds.Base.{
  ℕ, suc, ◌≤◌, ◌≡◌, refl, Bool, false, not, ◌&&◌, List, [], ◌∷◌, leb, ◌==◌, if◌then◌else◌, Buffer,
  arith,
}
use zephyr_uds.Types.{Addressing, Out, send, nrc, clear_dtc_work, Ret, success, failure, enomem}
use zephyr_uds.Platform.{Config, Os, App}
use zephyr_uds.Security
use zephyr_uds.Session
use zephyr_uds.Flash
use zephyr_uds.Flash.{is_default}
use zephyr_uds.Routine
use zephyr_uds.Routine.{is_running}
use zephyr_uds.ClearDtc
use zephyr_uds.ReadDtc
use zephyr_uds.DynamicDid
use zephyr_uds.Periodic
use zephyr_uds.Reset
use zephyr_uds.WriteDid
use zephyr_uds.IoControl
use zephyr_uds.Server.State.{Server}
use zephyr_uds.Server.Services
use zephyr_uds.Server.Process.{
  Service, clear_dtc, routine_control, periodic, tester_present, session_control, security_access,
  io_control, request_download, transfer_data, transfer_exit, read_did, serve,
}

-- The answers among the calls of a handler.
abbrev pub answer_count : List Out → ℕ
answer_count [] = 0
answer_count (send bytes ∷ calls) = suc (answer_count calls)
answer_count (nrc sid code ∷ calls) = suc (answer_count calls)
answer_count (_ ∷ calls) = answer_count calls

module _ {W : Type 0} (c : Config) (os : Os W) (app : App W) where
  -- The requests that get no answer: a clearing or a routine that goes to the work queue, a
  -- periodic mode that is not known, and a TesterPresent that asks for none.
  abbrev pub silent : Service → Server W → Buffer → ℕ → Bool
  silent clear_dtc s req len = len == 4 && not (os.work_is_pending s.world clear_dtc_work)
  silent routine_control s req len =
      not (is_default s.session)
      && (leb 4 len && (req 1 == 0x01 && not (is_running s.routine.status)))
  silent periodic s req len = leb 3 len && (not (req 1 == 0x01) && not (req 1 == 0x04))
  silent tester_present s req len = leb 2 len && not (bit_and (req 1) 0x80 == 0)
  silent _ s req len = false

  answer_read-once :
      (s : Server W) (req : Buffer) (ret : Ret) (d_len : ℕ)
      → answer_count (Services.answer_read s req ret d_len).1 ≡ 1
  unfolding Services.answer_read
  answer_read-once s req success d_len = refl
  answer_read-once s req (failure enomem) d_len = refl
  answer_read-once s req (failure _) d_len = refl

  -- The body of the switch answers every request of at least one byte exactly once before it
  -- returns, positively or negatively, whatever the state and the application, but for these, which
  -- it does not answer: a clearing or a routine that goes to the work queue, a periodic request
  -- with an unknown mode, and a TesterPresent that asks for no answer.
  pub serve_once :
      (v : Service) (a : Addressing) (s : Server W) (req : Buffer) (len : ℕ)
      → 1 ≤ len
      → answer_count (serve c os app v a s req len).1 ≡ (if silent v s req len then 0 else 1)
  unfolding serve
  serve_once session_control a s req len h =
      unfold Services.session_control Session.set Session.refresh_timer in ground arith
  serve_once Service.ecu_reset a s req len h =
      unfold Services.ecu_reset Reset.handle in ground arith
  serve_once clear_dtc a s req len h = unfold Services.clear_dtc ClearDtc.handle in ground arith
  serve_once Service.read_dtc a s req len h =
      unfold Services.read_dtc ReadDtc.handle ReadDtc.by_status_mask ReadDtc.stored_data in
      ground arith
  serve_once read_did a s req len h = unfold Services.read_did in grind (arith, answer_read-once)
  serve_once security_access a s req len h =
      unfold Services.security_access Security.handle_request Security.request_seed
        Security.send_key Security.grant Security.count_failure in
      ground arith
  serve_once Service.write_did a s req len h =
      unfold Services.write_did WriteDid.handle in ground arith
  serve_once periodic a s req len h = unfold Services.periodic Periodic.handle in ground arith
  serve_once Service.define_dynamic_did a s req len h =
      unfold Services.define_dynamic_did DynamicDid.define in ground arith
  serve_once io_control a s req len h = unfold Services.io_control IoControl.handle in ground arith
  serve_once routine_control a s req len h =
      unfold Services.routine_control Routine.handle_control Routine.start
        Routine.request_results in
      ground arith
  serve_once request_download a s req len h =
      unfold Services.request_download Flash.request_download Flash.start_download in ground arith
  serve_once transfer_data a s req len h =
      unfold Services.transfer_data Flash.transfer_data in ground arith
  serve_once transfer_exit a s req len h =
      unfold Services.transfer_exit Flash.transfer_exit in ground arith
  serve_once Service.response_on_event a s req len h =
      unfold Services.response_on_event in ground arith
  serve_once tester_present a s req len h = unfold Services.tester_present in ground arith
  serve_once Service.other a s req len h = ground arith

-- ===== src/Server/Residue/Life.antt =====
-- src/uds_server.c: what the transmission buffer held at first shows in no frame, over any history.
use zephyr_uds.Base.{
  ℕ, ◌≤◌, ◌≡◌, refl, sym, ap, ap₂, ◌∙◌, true, Bool-cases, inl, inr, List, [], ◌∷◌, ◌++◌, ◌==◌,
  length, Buffer, copy, arith,
}
use zephyr_uds.Types.{Addressing, physical, functional}
use zephyr_uds.Platform.{Config, Os, App}
use zephyr_uds.Security.Guessing.{FillsBuffer}
use zephyr_uds.Session
use zephyr_uds.Flash
use zephyr_uds.Routine
use zephyr_uds.ClearDtc
use zephyr_uds.DynamicDid
use zephyr_uds.DynamicDid.{DynamicDidMap, Filling}
use zephyr_uds.Periodic
use zephyr_uds.Reset
use zephyr_uds.WriteDid
use zephyr_uds.IoControl
use zephyr_uds.Server.State.{Server}
use zephyr_uds.Server.Services
use zephyr_uds.Server.Services.{did_header}
use zephyr_uds.Server.Process.{
  Service, session_control, security_access, io_control, request_download, transfer_data,
  transfer_exit, read_did, read_dtc, serve,
}
use zephyr_uds.Platform.{IsConfig}
use zephyr_uds.Base.{and_both, all}
use zephyr_uds.Security.Guessing.{IsCounting}
use zephyr_uds.Server.State.{perform_all}
use zephyr_uds.Server.Process.{service, process_request}
use zephyr_uds.Server.Machine.{Event, received, step, receive, run}
use zephyr_uds.Server.Width.{IsWithin}
use zephyr_uds.Server.Width.Life.{has_bytes, step-IsWithin}
use zephyr_uds.Server.Lock.Sound.{step-IsCounting}
use zephyr_uds.Server.Residue.{Alike, Exact, read_dtc-Alike, security_access-Alike}
use zephyr_uds.Server.Residue.Reads.{read_did-Alike}

module _ {W : Type 0} (c : Config) (os : Os W) (app : App W) where
  serve-Alike :
      FillsBuffer c os app
      → Exact app
      → (v : Service) (a : Addressing) (s : Server W) (tx : Buffer) (req : Buffer) (len : ℕ)
      → s.dyn_map.entry_count ≤ 1
      → length s.security.generated_seed ≡ c.seed_size
      → Alike (serve c os app v a s req len) (serve c os app v a (record s { tx_buf = tx }) req len)
  unfolding serve
  serve-Alike fills h session_control a s tx req len few whole =
      unfold Services.session_control Session.set Session.refresh_timer in ground arith
  serve-Alike fills h Service.ecu_reset a s tx req len few whole =
      unfold Services.ecu_reset Reset.handle Reset.respond in ground arith
  serve-Alike fills h Service.clear_dtc a s tx req len few whole =
      unfold Services.clear_dtc ClearDtc.handle in ground arith
  serve-Alike fills h read_dtc a s tx req len few whole = read_dtc-Alike c os app h s tx req len
  serve-Alike fills h read_did a s tx req len few whole = read_did-Alike c os app h s tx req len few
  serve-Alike fills h security_access physical s tx req len few whole =
      security_access-Alike c os app fills s tx req len whole
  serve-Alike fills h security_access functional s tx req len few whole = (refl, refl)
  serve-Alike fills h Service.write_did a s tx req len few whole =
      unfold Services.write_did WriteDid.handle WriteDid.answer in ground arith
  serve-Alike fills h Service.periodic a s tx req len few whole =
      unfold Services.periodic Periodic.handle in ground arith
  serve-Alike fills h Service.define_dynamic_did a s tx req len few whole =
      unfold Services.define_dynamic_did DynamicDid.define in ground arith
  serve-Alike fills h io_control a s tx req len few whole =
      unfold Services.io_control IoControl.handle IoControl.answer in ground arith
  serve-Alike fills h Service.routine_control a s tx req len few whole =
      unfold Services.routine_control Routine.handle_control Routine.start
        Routine.request_results in
      ground arith
  serve-Alike fills h request_download a s tx req len few whole =
      unfold Services.request_download Flash.request_download Flash.start_download in ground arith
  serve-Alike fills h transfer_data a s tx req len few whole =
      unfold Services.transfer_data Flash.transfer_data in ground arith
  serve-Alike fills h transfer_exit a s tx req len few whole =
      unfold Services.transfer_exit Flash.transfer_exit in ground arith
  serve-Alike fills h Service.response_on_event a s tx req len few whole =
      unfold Services.response_on_event in ground arith
  serve-Alike fills h Service.tester_present a s tx req len few whole =
      unfold Services.tester_present in ground arith
  serve-Alike fills h Service.other a s tx req len few whole = ground arith

  message-Alike :
      FillsBuffer c os app
      → Exact app
      → (a : Addressing) (s : Server W) (tx : Buffer) (bytes : List ℕ) → s.dyn_map.entry_count ≤ 1
      → length s.security.generated_seed ≡ c.seed_size
      → Alike (receive c os app s a bytes) (receive c os app (record s { tx_buf = tx }) a bytes)
  unfolding receive process_request
  message-Alike fills h a s tx bytes few whole =
      let req = copy s.rx_buf 0 bytes in
      let addressed = record s { rx_buf = req; current_msg_addressing = a } in
      let (same, rest) =
        serve-Alike fills h (service (req 0)) a addressed tx req (length bytes) few whole in
      elim (Bool-cases (length bytes == 0)) [
        | inl nothing ↦ rw nothing (refl, refl)
        | inr some_bytes ↦
            rw some_bytes
              (ap (λ calls. Session.refresh_timer c s.session ++ perform_all a calls) same, rest)
      ]

  step-Alike :
      FillsBuffer c os app
      → Exact app
      → (s : Server W) (tx : Buffer) (e : Event) → s.dyn_map.entry_count ≤ 1
      → length s.security.generated_seed ≡ c.seed_size
      → Alike (step c os app s e) (step c os app (record s { tx_buf = tx }) e)
  unfolding step
  step-Alike fills h s tx (received a bytes) few whole =
      message-Alike fills h a s tx bytes few whole
  step-Alike fills h s tx _ few whole = (refl, refl)

  -- Over any history of messages of any bytes, and of expiries, work items and samples, all calls
  -- and so all frames are the same whatever the transmission buffer held at first: no frame shows
  -- what an earlier response left in it. The
  -- configuration is valid, the entropy source fills its buffer, the hooks that read say how many
  -- bytes they wrote, and at first the statics were within their bounds and the seed a whole one.
  pub residue_unseen :
      IsConfig c
      → FillsBuffer c os app
      → Exact app
      → (s : Server W) (tx : Buffer) (events : List Event) → all has_bytes events ≡ true
      → IsWithin s
      → IsCounting c s.security
      → (run c os app s events).1 ≡ (run c os app (record s { tx_buf = tx }) events).1
  unfolding run
  residue_unseen v fills h s tx [] bytes k n = refl
  residue_unseen v fills h s tx (e ∷ es) bytes k n =
      let (now, later) = and_both (has_bytes e) (all has_bytes es) bytes in
      let (s', calls) = step c os app s e in
      let (s'', calls') = step c os app (record s { tx_buf = tx }) e in
      let (same, rest) = step-Alike fills h s tx e k.dynamic.0 n.seed_whole in
      let other : s'' ≡ record s' { tx_buf = s''.tx_buf } =
        ap {A = Server W} {B = Server W} (λ z. record z { tx_buf = s''.tx_buf }) (sym rest) in
      let onwards =
        residue_unseen v fills h s' s''.tx_buf es later (step-IsWithin c os app s e now k)
          (step-IsCounting c os app v fills s e n) in
      ap₂ ◌++◌ same (onwards ∙ ap (λ z. (run c os app z es).1) (sym other))

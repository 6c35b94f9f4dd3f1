-- ===== src/Server/Services.antt =====
-- src/uds_server.c: the cases of the switch in uds_process_request. Each gives the server and the
-- calls, those of the two callbacks included.
use Prim.Native.Nat.{bit_and}
use zephyr_uds.Base.{
  ℕ, ◌+◌, ◌-◌, Option, none, some, List, [], ◌∷◌, ◌++◌, ltb, ◌==◌, if◌then◌else◌, u8, be16, Buffer,
  store, copy, slice,
}
use zephyr_uds.Types.{
  SessionType, default_session, programming_session, extended_session, Ret, success, failure,
  enomem, Out, send, nrc,
}
use zephyr_uds.Types.Nrc
use zephyr_uds.Platform.{Config, Os, App, stored, ok}
use zephyr_uds.Security
use zephyr_uds.Session
use zephyr_uds.Flash
use zephyr_uds.Routine
use zephyr_uds.ClearDtc
use zephyr_uds.ReadDtc
use zephyr_uds.DynamicDid
use zephyr_uds.Periodic
use zephyr_uds.Reset
use zephyr_uds.WriteDid
use zephyr_uds.IoControl
use zephyr_uds.Server.State.{Server, after_reply}

-- The cast `(uds_session_type_t)req_sess`, for the values that pass the test before it.
unfoldable pub session_of_byte : ℕ → Option SessionType
session_of_byte b =
    if b == 0x01
    then some default_session
    else if b == 0x02
    then some programming_session
    else if b == 0x03
    then some extended_session
    else none

module _ {W : Type 0} (c : Config) where
  -- case 0x10
  unfoldable pub session_control : Server W → Buffer → ℕ → Server W × List Out
  unfolding session_of_byte
  session_control s req len =
      if ltb len 2
      then (s, nrc (req 0) Nrc.incorrect_length_or_invalid_format ∷ [])
      else elim (session_of_byte (req 1)) [
        | none ↦ (s, nrc (req 0) Nrc.sub_function_not_supported ∷ [])
        | some req_sess ↦
            let (session', timers) = Session.set c req_sess in
            let tx' = store (store s.tx_buf 0 (u8 (req 0 + 0x40))) 1 (req 1) in
            (
              record s {
                tx_buf = tx';
                security = Security.reset_lock s.security;
                session = session';
              },
              timers ++ send (slice 0 2 tx') ∷ [],
            )
      ]

-- The first three bytes of a positive response of the cases 0x22 and 0x86.
abbrev pub did_header : Buffer → Buffer → Buffer
did_header req tx = store (store (store tx 0 (u8 (req 0 + 0x40))) 1 (req 1)) 2 (req 2)

module _ {W : Type 0} where
  -- The end of case 0x22, over what uds_app_read_did returned.
  unfoldable pub answer_read : Server W → Buffer → Ret → ℕ → Server W × List Out
  answer_read s req success d_len =
      let tx' = did_header req s.tx_buf in
      (record s { tx_buf = tx' }, send (slice 0 (3 + d_len) tx') ∷ [])
  answer_read s req (failure enomem) d_len = (s, nrc (req 0) Nrc.response_pending ∷ [])
  answer_read s req (failure _) d_len = (s, nrc (req 0) Nrc.request_out_of_range ∷ [])

  -- case 0x86
  unfoldable pub response_on_event : Server W → Buffer → ℕ → Server W × List Out
  response_on_event s req len =
      if ltb len 3
      then (s, nrc (req 0) Nrc.incorrect_length_or_invalid_format ∷ [])
      else let tx' = did_header req s.tx_buf in
        (record s { tx_buf = tx' }, send (slice 0 3 tx') ∷ [])

  -- case 0x3E
  unfoldable pub tester_present : Server W → Buffer → ℕ → Server W × List Out
  tester_present s req len =
      if ltb len 2
      then (s, nrc (req 0) Nrc.incorrect_length_or_invalid_format ∷ [])
      else if bit_and (req 1) 0x80 == 0
      then (let tx' = store (store s.tx_buf 0 (u8 (req 0 + 0x40))) 1 (bit_and (req 1) 0x7F) in
          (record s { tx_buf = tx' }, send (slice 0 2 tx') ∷ []))
      else (s, [])

module _ {W : Type 0} (c : Config) (os : Os W) (app : App W) where
  -- case 0x22: a dynamic identifier first, then the application's.
  unfoldable pub read_did : Server W → Buffer → ℕ → Server W × List Out
  unfolding answer_read
  read_did s req len =
      if ltb len 3
      then (s, nrc (req 0) Nrc.incorrect_length_or_invalid_format ∷ [])
      else let did = be16 (req 1) (req 2) in
        let (ret, w', tx', d_len) =
          DynamicDid.read_payload os app s.world s.dyn_map did s.tx_buf 3 0 in
        let s' = record s { world = w'; tx_buf = tx' } in
        if ok ret
        then answer_read s' req success d_len
        else let (w'', reading) = app.read_did w' did (c.buff_size - 3) in
          answer_read (record s' { world = w''; tx_buf = copy tx' 3 reading.written }) req
            reading.ret (stored reading.len_out d_len)

  -- The cases that call a handler of another file.
  unfoldable pub ecu_reset : Server W → Buffer → ℕ → Server W × List Out
  ecu_reset s req len =
      let (chosen, r) = Reset.handle s.world s.chosen_reset_type req len s.tx_buf in
      (record (after_reply s r) { chosen_reset_type = chosen }, r.out)

  unfoldable pub clear_dtc : Server W → Buffer → ℕ → Server W × List Out
  clear_dtc s req len =
      let (d, out) = ClearDtc.handle os s.world s.clear_dtc req len in
      (record s { clear_dtc = d }, out)

  unfoldable pub read_dtc : Server W → Buffer → ℕ → Server W × List Out
  read_dtc s req len =
      let r = ReadDtc.handle c os app s.world req len s.tx_buf in (after_reply s r, r.out)

  unfoldable pub security_access : Server W → Buffer → ℕ → Server W × List Out
  security_access s req len =
      let (security', r) = Security.handle_request c os app s.world s.security req len s.tx_buf in
      (record (after_reply s r) { security = security' }, r.out)

  unfoldable pub write_did : Server W → Buffer → ℕ → Server W × List Out
  write_did s req len =
      let r = WriteDid.handle app s.session s.security.status s.world req len s.tx_buf in
      (after_reply s r, r.out)

  unfoldable pub periodic : Server W → Buffer → ℕ → Server W × List Out
  periodic s req len =
      let (p, out) = Periodic.handle s.periodic req len in (record s { periodic = p }, out)

  unfoldable pub define_dynamic_did : Server W → Buffer → ℕ → Server W × List Out
  define_dynamic_did s req len =
      let (m, out) = DynamicDid.define s.dyn_map req len in (record s { dyn_map = m }, out)

  unfoldable pub io_control : Server W → Buffer → ℕ → Server W × List Out
  io_control s req len =
      let r = IoControl.handle app s.session s.security.status s.world req len s.tx_buf in
      (after_reply s r, r.out)

  unfoldable pub routine_control : Server W → Buffer → ℕ → Server W × List Out
  routine_control s req len =
      let (w', r, out) = Routine.handle_control app s.session s.world s.routine req len in
      (record s { world = w'; routine = r }, out)

  unfoldable pub request_download : Server W → Buffer → ℕ → Server W × List Out
  request_download s req len =
      let (f, r) =
        Flash.request_download c app s.session s.security.status s.world s.flash req len s.tx_buf in
      (record (after_reply s r) { flash = f }, r.out)

  unfoldable pub transfer_data : Server W → Buffer → ℕ → Server W × List Out
  transfer_data s req len =
      let (f, r) = Flash.transfer_data app s.world s.flash req len s.tx_buf in
      (record (after_reply s r) { flash = f }, r.out)

  unfoldable pub transfer_exit : Server W → Buffer → ℕ → Server W × List Out
  transfer_exit s req len =
      let (f, r) = Flash.transfer_exit s.world s.flash req s.tx_buf in
      (record (after_reply s r) { flash = f }, r.out)

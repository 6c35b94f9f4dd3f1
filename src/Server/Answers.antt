-- ===== src/Server/Answers.antt =====
-- src/uds_server.c and the handlers: every answer names the service that it answers.
pub mod All
use zephyr_uds.Base.{
  ℕ, ◌+◌, ◌-◌, ◌≡◌, refl, Bool, true, false, not, Bool-cases, inl, inr, Option-cases, List, [], ◌∷◌,
  ◌==◌, all, u8, be24, Buffer, store, copy, slice_first, ltb, arith,
}
use zephyr_uds.Types.{
  SessionType, SecurityStatus, Reboot, Out, send, nrc, timer_init, timer_start, timer_stop,
}
use zephyr_uds.Timing.{is_s3}
use zephyr_uds.Platform.{Config, Os, App, Fs, stored}
use zephyr_uds.Security
use zephyr_uds.Security.{Security}
use zephyr_uds.Flash
use zephyr_uds.Flash.{Flash}
use zephyr_uds.Routine
use zephyr_uds.Routine.{Routine}
use zephyr_uds.ClearDtc
use zephyr_uds.ClearDtc.{ClearDtc}
use zephyr_uds.ReadDtc
use zephyr_uds.ReadDtc.Report
use zephyr_uds.DynamicDid
use zephyr_uds.DynamicDid.{DynamicDidMap}
use zephyr_uds.Periodic
use zephyr_uds.Periodic.{Periodic}
use zephyr_uds.Reset
use zephyr_uds.WriteDid
use zephyr_uds.IoControl

abbrev starts_with : ℕ → List ℕ → Bool
starts_with b [] = false
starts_with b (x ∷ xs) = x == b

-- A positive response begins with the request's identifier plus 0x40, a negative one names the
-- identifier; other calls are no answers.
abbrev pub answers : ℕ → Out → Bool
answers sid (send bytes) = starts_with (u8 (sid + 0x40)) bytes
answers sid (nrc s code) = s == sid
answers sid _ = true

-- An answer, or another call that leaves the S3 timer alone.
abbrev pub proper : ℕ → Out → Bool
proper sid (timer_init t) = not (is_s3 t)
proper sid (timer_start t duration period) = not (is_s3 t)
proper sid (timer_stop t) = not (is_s3 t)
proper sid o = answers sid o

abbrev pub AllProper : Buffer → List Out → Type 0
AllProper req calls = all (proper (req 0)) calls ≡ true

answers_of_proper : (sid : ℕ) (o : Out) → proper sid o ≡ true → answers sid o ≡ true
answers_of_proper sid (timer_init t) h = refl
answers_of_proper sid (timer_start t duration period) h = refl
answers_of_proper sid (timer_stop t) h = refl
answers_of_proper sid o h = h

pub all_answer :
    (sid : ℕ) (calls : List Out) → all (proper sid) calls ≡ true → all (answers sid) calls ≡ true
all_answer sid [] h = refl
all_answer sid (o ∷ os) h = ground (arith, answers_of_proper sid o, all_answer sid os)

module _ {W : Type 0} (c : Config) (os : Os W) (app : App W) where
  pub security-proper :
      (w : W) (s : Security) (req : Buffer) (len : ℕ) (tx : Buffer)
      → AllProper req (Security.handle_request c os app w s req len tx).1.out
  unfolding Security.handle_request Security.request_seed Security.send_key Security.grant
      Security.count_failure
  security-proper w s req len tx =
      let seed = (Security.generate_seed c os w s).1.generated_seed in
      let tx' = copy (store (store tx 0 (u8 (req 0 + 0x40))) 1 (req 1)) 2 seed in
      ground (arith, slice_first (2 + c.seed_size) (1 + c.seed_size) tx' (omega arith))

  pub reset-proper :
      (w : W) (chosen : Reboot) (req : Buffer) (len : ℕ) (tx : Buffer)
      → AllProper req (Reset.handle w chosen req len tx).1.out
  unfolding Reset.handle
  reset-proper w chosen req len tx = ground arith

  pub write_did-proper :
      (session : SessionType) (security : SecurityStatus) (w : W) (req : Buffer) (len : ℕ)
      (tx : Buffer)
      → AllProper req (WriteDid.handle app session security w req len tx).out
  unfolding WriteDid.handle
  write_did-proper session security w req len tx = ground arith

  pub io_control-proper :
      (session : SessionType) (security : SecurityStatus) (w : W) (req : Buffer) (len : ℕ)
      (tx : Buffer)
      → AllProper req (IoControl.handle app session security w req len tx).out
  unfolding IoControl.handle
  io_control-proper session security w req len tx = ground arith

  pub routine-proper :
      (session : SessionType) (w : W) (r : Routine) (req : Buffer) (len : ℕ)
      → AllProper req (Routine.handle_control app session w r req len).2
  unfolding Routine.handle_control Routine.start Routine.request_results
  routine-proper session w r req len = ground arith

  pub clear_dtc-proper :
      (w : W) (d : ClearDtc) (req : Buffer) (len : ℕ)
      → AllProper req (ClearDtc.handle os w d req len).1
  unfolding ClearDtc.handle
  clear_dtc-proper w d req len = ground arith

  pub define-proper :
      (m : DynamicDidMap) (req : Buffer) (len : ℕ)
      → req 0 ≡ 0x2C
      → AllProper req (DynamicDid.define m req len).1
  unfolding DynamicDid.define
  define-proper m req len h = ground arith

  pub periodic-proper :
      (p : Periodic) (req : Buffer) (len : ℕ)
      → req 0 ≡ 0x2A
      → AllProper req (Periodic.handle p req len).1
  unfolding Periodic.handle
  periodic-proper p req len h = ground arith

  pub request_download-proper :
      (session : SessionType) (security : SecurityStatus) (w : W) (f : Flash) (req : Buffer)
      (len : ℕ) (tx : Buffer)
      → AllProper req (Flash.request_download c app session security w f req len tx).1.out
  unfolding Flash.request_download Flash.start_download
  request_download-proper session security w f req len tx = ground arith

  pub transfer_data-proper :
      (w : W) (f : Flash) (req : Buffer) (len : ℕ) (tx : Buffer)
      → AllProper req (Flash.transfer_data app w f req len tx).1.out
  unfolding Flash.transfer_data
  transfer_data-proper w f req len tx = ground arith

  pub transfer_exit-proper :
      (w : W) (f : Flash) (req tx : Buffer) → AllProper req (Flash.transfer_exit w f req tx).1.out
  unfolding Flash.transfer_exit
  transfer_exit-proper w f req tx = ground arith

  by_status_mask-proper :
      (w : W) (fs : Fs) (req : Buffer) (len : ℕ) (tx : Buffer)
      → AllProper req (ReadDtc.by_status_mask c os app w fs req len tx).out
  by_status_mask-proper w fs req len tx = elim (Bool-cases (ltb len 3)) [
    | inl short ↦ unfold ReadDtc.by_status_mask in ground arith
    | inr long ↦
        rw (Report.by_status_mask_lem c os app w fs req len tx (ground arith)) (ground arith)
  ]

  stored_data-proper :
      (w : W) (req : Buffer) (len : ℕ) (tx : Buffer)
      → AllProper req (ReadDtc.stored_data c os app w req len tx).out
  unfolding ReadDtc.stored_data
  stored_data-proper w req len tx =
      let reading =
        (app.get_freeze_frame w (be24 (req 2) (req 3) (req 4)) (req 5) (c.buff_size - 5)).1 in
      let head =
        store (store (store (store (store tx 0 (u8 (req 0 + 0x40))) 1 (req 1)) 2 (req 2)) 3 (req 3))
          4 (req 4) in
      let d_len = stored reading.len_out 0 in
      ground
        (arith, slice_first (5 + d_len) (4 + d_len) (copy head 5 reading.written) (omega arith))

  pub read_dtc-proper :
      (w : W) (req : Buffer) (len : ℕ) (tx : Buffer)
      → AllProper req (ReadDtc.handle c os app w req len tx).out
  unfolding ReadDtc.handle
  read_dtc-proper w req len tx = elim (Option-cases (app.get_nvs_context w)) [
    | inl e ↦ ground arith
    | inr (fs, e) ↦
        ground (arith, by_status_mask-proper w fs req len tx, stored_data-proper w req len tx)
  ]

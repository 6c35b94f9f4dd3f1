-- ===== src/ReadDtc/Answer.antt =====
-- src/uds_read_dtc.c: the answer to any request.
use zephyr_uds.Base.{
  ℕ, ◌+◌, ◌-◌, ◌≡◌, refl, true, Bool-cases, Option-cases, inl, inr, none, some, [], ◌∷◌, length,
  ltb, ◌==◌, if◌then◌else◌, u8, be24, Buffer, store, slice-prefixed, arith,
}
use zephyr_uds.Types.{Out, send, nrc}
use zephyr_uds.Types.Nrc
use zephyr_uds.Platform.{Config, Os, App, Fs, Reading, ok}
use zephyr_uds.ReadDtc.{max_entries, by_status_mask, stored_data, handle}
use zephyr_uds.ReadDtc.Report.{matching_bytes, stored_dtcs, by_status_mask_lem}

module _ {W : Type 0} (c : Config) (os : Os W) (app : App W) where
  -- What the application gives for the DTC and the record of the request.
  abbrev pub snapshot : W → Buffer → Reading
  snapshot w req =
      (app.get_freeze_frame w (be24 (req 2) (req 3) (req 4)) (req 5) (c.buff_size - 5)).1

  -- The answers of the two reports, apart from how the buffer is filled.
  abbrev pub status_answer : W → Fs → Buffer → ℕ → Out
  status_answer w fs req len =
      if ltb len 3
      then nrc (req 0) Nrc.incorrect_length_or_invalid_format
      else send (
          u8 (req 0 + 0x40)
          ∷ 0x02
          ∷ 0x09
          ∷ matching_bytes (req 2) (stored_dtcs os w fs max_entries 0))

  abbrev pub snapshot_answer : W → Buffer → ℕ → Out
  snapshot_answer w req len =
      if ltb len 6
      then nrc (req 0) Nrc.incorrect_length_or_invalid_format
      else if ok (snapshot w req).ret
      then send (u8 (req 0 + 0x40) ∷ 0x04 ∷ req 2 ∷ req 3 ∷ req 4 ∷ (snapshot w req).written)
      else nrc (req 0) Nrc.request_out_of_range

  abbrev pub answer : W → Buffer → ℕ → Out
  answer w req len =
      if ltb len 2
      then nrc (req 0) Nrc.incorrect_length_or_invalid_format
      else elim (app.get_nvs_context w) [
        | none ↦ nrc (req 0) Nrc.conditions_not_correct
        | some fs ↦
            if req 1 == 0x02
            then status_answer w fs req len
            else if req 1 == 0x04
            then snapshot_answer w req len
            else nrc (req 0) Nrc.sub_function_not_supported
      ]

  by_status_mask-answer :
      (w : W) (fs : Fs) (req : Buffer) (len : ℕ) (tx : Buffer)
      → req 1 ≡ 0x02
      → (by_status_mask c os app w fs req len tx).out ≡ status_answer w fs req len ∷ []
  by_status_mask-answer w fs req len tx sub = elim (Bool-cases (ltb len 3)) [
    | inl short ↦ unfold by_status_mask in ground arith
    | inr long ↦
        let lem = by_status_mask_lem c os app w fs req len tx (ground arith) in
        rw (lem, long, sub) refl
  ]

  stored_data-answer :
      (w : W) (req : Buffer) (len : ℕ) (tx : Buffer)
      → (ok (snapshot w req).ret ≡ true
          → (snapshot w req).len_out ≡ some (length (snapshot w req).written))
      → req 1 ≡ 0x04
      → (stored_data c os app w req len tx).out ≡ snapshot_answer w req len ∷ []
  unfolding stored_data
  stored_data-answer w req len tx sized sub =
      let head =
        store (store (store (store (store tx 0 (u8 (req 0 + 0x40))) 1 (req 1)) 2 (req 2)) 3 (req 3))
          4 (req 4) in
      let framed = slice-prefixed 5 head (snapshot w req).written in ground (arith, framed)

  -- Any request to read DTCs is answered by one call, and by that which its bytes, what is stored and
  -- what the application gives say, whatever the buffer held: by status mask, the stored DTCs whose
  -- status is not zero and shares a bit with the mask, in the order of their entries; by number, the
  -- DTC of the request and the application's bytes, or 0x31; and a code for a request that is too
  -- short, of another kind, or without a file system. Where the application has the record, it says
  -- how many bytes it wrote.
  pub handle-eq-answer :
      (w : W) (req : Buffer) (len : ℕ) (tx : Buffer)
      → (ok (snapshot w req).ret ≡ true
          → (snapshot w req).len_out ≡ some (length (snapshot w req).written))
      → (handle c os app w req len tx).out ≡ answer w req len ∷ []
  unfolding handle
  handle-eq-answer w req len tx sized = elim (Option-cases (app.get_nvs_context w)) [
    | inl absent ↦ ground arith
    | inr (fs, found) ↦
        let mask = by_status_mask-answer w fs req len tx in
        let frame = stored_data-answer w req len tx sized in ground (arith, mask, frame)
  ]

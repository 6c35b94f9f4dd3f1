-- ===== src/ReadDtc/Report.antt =====
-- src/uds_read_dtc.c: the report by status mask is the list of the stored DTCs that match.
use mathlib.Core.Path.{fun_ext}
use zephyr_uds.Base.{
  ℕ, zero, suc, ◌+◌, ◌-◌, ◌*◌, ◌≤◌, ◌≡◌, refl, ap, ap₂, sym, ◌∙◌, inl, inr, Bool-cases, false,
  Option, none, some, List, [], ◌∷◌, ◌++◌, if◌then◌else◌, length, length-append, u8, ltb, Buffer,
  copy, store, copy-copy, copy-nil, slice, slice-prefixed, arith,
}
use zephyr_uds.Types.{Dtc, send}
use zephyr_uds.Platform.{Config, Os, App, Fs}
use zephyr_uds.ReadDtc.{
  dtc_start_id, max_entries, status_availability_mask, whole_dtc, matches, write_dtc, report_dtc,
  report_entries, by_status_mask,
}

-- A DTC as four bytes.
abbrev pub dtc_bytes : Dtc → List ℕ
dtc_bytes d = d.code0 ∷ d.code1 ∷ d.code2 ∷ d.status ∷ []

-- The DTCs that match, in their order, as bytes.
unfoldable pub matching_bytes : ℕ → List Dtc → List ℕ
matching_bytes client_mask [] = []
matching_bytes client_mask (d ∷ ds) =
    (if matches client_mask d then dtc_bytes d else []) ++ matching_bytes client_mask ds

abbrev keep : Option Dtc → List Dtc → List Dtc
keep none ds = ds
keep (some d) ds = d ∷ ds

write_dtc-eq-copy :
    (tx : Buffer) (idx : ℕ) (d : Dtc) → write_dtc tx idx d ≡ copy tx idx (dtc_bytes d)
write_dtc-eq-copy tx idx d = fun_ext λ j. at j (j - idx) refl
  where
    at : (j k : ℕ) → j - idx ≡ k → write_dtc tx idx d j ≡ copy tx idx (dtc_bytes d) j
    at j zero e = ground arith
    at j (suc zero) e = ground arith
    at j (suc (suc zero)) e = ground arith
    at j (suc (suc (suc zero))) e = ground arith
    at j (suc (suc (suc (suc k)))) e = ground arith

-- What one entry adds.
abbrev entry_bytes : ℕ → Option Dtc → List ℕ
entry_bytes client_mask none = []
entry_bytes client_mask (some d) = if matches client_mask d then dtc_bytes d else []

report_dtc_lem :
    (client_mask : ℕ) (read : Option Dtc) (tx : Buffer) (idx : ℕ)
    → let bytes = entry_bytes client_mask read in
      report_dtc client_mask read (tx, idx) ≡ (copy tx idx bytes, idx + length bytes)
unfolding report_dtc
report_dtc_lem client_mask none tx idx = ap₂ (λ a b. (a, b)) (sym (copy-nil tx idx)) (omega arith)
report_dtc_lem client_mask (some d) tx idx = elim (Bool-cases (matches client_mask d)) [
  | inl hit ↦ rw hit (ap (λ t. (t, idx + 4)) (write_dtc-eq-copy tx idx d))
  | inr miss ↦ rw miss (ap₂ (λ a b. (a, b)) (sym (copy-nil tx idx)) (omega arith))
]

matching_bytes-keep :
    (client_mask : ℕ) (read : Option Dtc) (ds : List Dtc)
    → matching_bytes client_mask (keep read ds)
      ≡ entry_bytes client_mask read ++ matching_bytes client_mask ds
unfolding matching_bytes
matching_bytes-keep client_mask none ds = refl
matching_bytes-keep client_mask (some d) ds = refl

length-matching_bytes :
    (client_mask : ℕ) (ds : List Dtc) → length (matching_bytes client_mask ds) ≤ 4 * length ds
unfolding matching_bytes
length-matching_bytes client_mask [] = omega arith
length-matching_bytes client_mask (d ∷ ds) = ground (arith, length-matching_bytes client_mask ds)

module _ {W : Type 0} (os : Os W) (w : W) (fs : Fs) where
  -- The DTCs that are stored whole under the ids of the rounds left, from entry `i` on.
  unfoldable pub stored_dtcs : ℕ → ℕ → List Dtc
  stored_dtcs zero i = []
  stored_dtcs (suc rounds) i =
      keep (whole_dtc (os.nvs_read w fs (dtc_start_id + i) 4)) (stored_dtcs rounds (suc i))

  length-stored_dtcs : (rounds i : ℕ) → length (stored_dtcs rounds i) ≤ rounds
  unfolding stored_dtcs
  length-stored_dtcs zero i = omega arith
  length-stored_dtcs (suc rounds) i = ground (arith, length-stored_dtcs rounds (suc i))

  report_entries-eq-copy :
      (client_mask rounds i : ℕ) (tx : Buffer) (idx : ℕ)
      → let bytes = matching_bytes client_mask (stored_dtcs rounds i) in
        report_entries os w fs client_mask rounds i (tx, idx)
        ≡ (copy tx idx bytes, idx + length bytes)
  unfolding report_entries stored_dtcs
  report_entries-eq-copy client_mask zero i tx idx =
      unfold matching_bytes in ap₂ (λ a b. (a, b)) (sym (copy-nil tx idx)) (omega arith)
  report_entries-eq-copy client_mask (suc rounds) i tx idx =
      let read = whole_dtc (os.nvs_read w fs (dtc_start_id + i) 4) in
      let here = entry_bytes client_mask read in
      let rest = matching_bytes client_mask (stored_dtcs rounds (suc i)) in
      rw
        (
          report_dtc_lem client_mask read tx idx,
          matching_bytes-keep client_mask read (stored_dtcs rounds (suc i)),
        )
        (report_entries-eq-copy client_mask rounds (suc i) (copy tx idx here) (idx + length here)
          ∙ ap₂ (λ a b. (a, b)) (copy-copy tx idx here rest)
              (omega (arith, length-append here rest)))

module _ {W : Type 0} (c : Config) (os : Os W) (app : App W) where
  pub by_status_mask_lem :
      (w : W) (fs : Fs) (req : Buffer) (len : ℕ) (tx : Buffer)
      → 3 ≤ len
      → let bytes = matching_bytes (req 2) (stored_dtcs os w fs max_entries 0) in
        let head =
          store (store (store tx 0 (u8 (req 0 + 0x40))) 1 (req 1)) 2 status_availability_mask in
        by_status_mask c os app w fs req len tx ≡ record {
          world = w;
          tx_buf = copy head 3 bytes;
          out = send (slice 0 3 head ++ bytes) ∷ [];
        }
  unfolding by_status_mask
  by_status_mask_lem w fs req len tx h =
      let bytes = matching_bytes (req 2) (stored_dtcs os w fs max_entries 0) in
      let head =
        store (store (store tx 0 (u8 (req 0 + 0x40))) 1 (req 1)) 2 status_availability_mask in
      let long : ltb len 3 ≡ false = ground arith in
      rw (long, report_entries-eq-copy os w fs (req 2) max_entries 0 head 3)
        (ap (λ sent. record { world = w; tx_buf = copy head 3 bytes; out = send sent ∷ [] })
          (slice-prefixed 3 head bytes))

  pub length-report :
      (w : W) (fs : Fs) (client_mask : ℕ)
      → length (matching_bytes client_mask (stored_dtcs os w fs max_entries 0)) ≤ 64
  length-report w fs client_mask = omega (
    arith,
    length-matching_bytes client_mask (stored_dtcs os w fs max_entries 0),
    length-stored_dtcs os w fs max_entries 0,
  )

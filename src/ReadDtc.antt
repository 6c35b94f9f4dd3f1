-- ===== src/ReadDtc.antt =====
-- src/uds_read_dtc.c: ReadDTCInformation (0x19) over the application's NVS file system.
pub mod Report
pub mod Answer
use Prim.Native.Nat.{bit_and}
use zephyr_uds.Base.{
  ℕ, zero, suc, ◌+◌, ◌-◌, Bool, not, ◌&&◌, Option, none, some, [], ◌∷◌, ltb, ◌==◌, if◌then◌else◌,
  u8, be24, Buffer, store, copy, slice, get_or,
}
use zephyr_uds.Types.{Dtc, send}
use zephyr_uds.Types.Nrc
use zephyr_uds.Platform.{Config, Os, App, Fs, NvsRead, item, read_failed, Reply, refuse, ok, stored}

abbrev pub dtc_start_id : ℕ
dtc_start_id = 0x0100

abbrev pub max_entries : ℕ
max_entries = 16

abbrev pub status_availability_mask : ℕ
status_availability_mask = 0x09

-- The struct, if `ret == sizeof(temp_dtc)`.
unfoldable pub whole_dtc : NvsRead → Option Dtc
whole_dtc (item n bytes) =
    if n == 4
    then some (record {
      code0 = get_or bytes 0 0;
      code1 = get_or bytes 1 0;
      code2 = get_or bytes 2 0;
      status = get_or bytes 3 0;
    })
    else none
whole_dtc (read_failed e) = none

-- `temp_dtc.status != 0x00 && (temp_dtc.status & client_mask) != 0`
abbrev pub matches : ℕ → Dtc → Bool
matches client_mask d = not (d.status == 0x00) && not (bit_and d.status client_mask == 0)

abbrev pub write_dtc : Buffer → ℕ → Dtc → Buffer
write_dtc tx idx d =
    store (store (store (store tx idx d.code0) (idx + 1) d.code1) (idx + 2) d.code2) (idx + 3)
      d.status

-- The body of the loop behind the test of `ret`, over the buffer and `tx_idx`.
unfoldable pub report_dtc : ℕ → Option Dtc → Buffer × ℕ → Buffer × ℕ
report_dtc client_mask none at = at
report_dtc client_mask (some d) (tx, idx) =
    if matches client_mask d then (write_dtc tx idx d, idx + 4) else (tx, idx)

-- The loop, for the rounds left from entry `i` on.
module _ {W : Type 0} (os : Os W) (w : W) (fs : Fs) (client_mask : ℕ) where
  unfoldable pub report_entries : ℕ → ℕ → Buffer × ℕ → Buffer × ℕ
  report_entries zero i at = at
  report_entries (suc rounds) i at =
      report_entries rounds (suc i)
        (report_dtc client_mask (whole_dtc (os.nvs_read w fs (dtc_start_id + i) 4)) at)

module _ {W : Type 0} (c : Config) (os : Os W) (app : App W) where
  -- reportDTCByStatusMask, sub-function 0x02.
  unfoldable pub by_status_mask : W → Fs → Buffer → ℕ → Buffer → Reply W
  by_status_mask w fs req len tx =
      if ltb len 3
      then refuse w tx (req 0) Nrc.incorrect_length_or_invalid_format
      else let head =
          store (store (store tx 0 (u8 (req 0 + 0x40))) 1 (req 1)) 2 status_availability_mask in
        let (tx', tx_idx) = report_entries os w fs (req 2) max_entries 0 (head, 3) in
        record { world = w; tx_buf = tx'; out = send (slice 0 tx_idx tx') ∷ [] }

  -- reportDTCStoredDataByDTCNumber, sub-function 0x04.
  unfoldable pub stored_data : W → Buffer → ℕ → Buffer → Reply W
  stored_data w req len tx =
      if ltb len 6
      then refuse w tx (req 0) Nrc.incorrect_length_or_invalid_format
      else let req_dtc = be24 (req 2) (req 3) (req 4) in
        let head =
          store
            (store (store (store (store tx 0 (u8 (req 0 + 0x40))) 1 (req 1)) 2 (req 2)) 3 (req 3)) 4
            (req 4) in
        let (w', reading) = app.get_freeze_frame w req_dtc (req 5) (c.buff_size - 5) in
        let tx' = copy head 5 reading.written in
        if ok reading.ret
        then record {
          world = w';
          tx_buf = tx';
          out = send (slice 0 (5 + stored reading.len_out 0) tx') ∷ [];
        }
        else refuse w' tx' (req 0) Nrc.request_out_of_range

  -- uds_read_dtc_handle
  unfoldable pub handle : W → Buffer → ℕ → Buffer → Reply W
  handle w req len tx =
      if ltb len 2
      then refuse w tx (req 0) Nrc.incorrect_length_or_invalid_format
      else elim (app.get_nvs_context w) [
        | none ↦ refuse w tx (req 0) Nrc.conditions_not_correct
        | some fs ↦
            if req 1 == 0x02
            then by_status_mask w fs req len tx
            else if req 1 == 0x04
            then stored_data w req len tx
            else refuse w tx (req 0) Nrc.sub_function_not_supported
      ]

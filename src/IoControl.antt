-- ===== src/IoControl.antt =====
-- src/uds_iocontrol.c: InputOutputControlByIdentifier (0x2F).
pub mod Accepted
use zephyr_uds.Base.{
  ℕ, ◌+◌, ◌-◌, not, [], ◌∷◌, ltb, ◌==◌, if◌then◌else◌, u8, be16, Buffer, store, slice,
}
use zephyr_uds.Types.{SessionType, SecurityStatus, Ret, success, failure, einval, enoent, send}
use zephyr_uds.Types.Nrc
use zephyr_uds.Platform.{App, Reply, refuse, stored}
use zephyr_uds.Security.{is_unlocked}
use zephyr_uds.WriteDid.{is_extended}

module _ {W : Type 0} (app : App W) where
  -- The ladder over `ret`.
  unfoldable pub answer : W → Ret → ℕ → Buffer → Buffer → Reply W
  answer w success output_status req tx =
      let tx' =
        store (store (store (store (store tx 0 (u8 (req 0 + 0x40))) 1 (req 1)) 2 (req 2)) 3 (req 3))
          4 output_status in
      record { world = w; tx_buf = tx'; out = send (slice 0 5 tx') ∷ [] }
  answer w (failure einval) output_status req tx =
      refuse w tx (req 0) Nrc.incorrect_length_or_invalid_format
  answer w (failure enoent) output_status req tx = refuse w tx (req 0) Nrc.request_out_of_range
  answer w (failure _) output_status req tx = refuse w tx (req 0) Nrc.conditions_not_correct

  -- uds_handle_io_control
  unfoldable pub handle : SessionType → SecurityStatus → W → Buffer → ℕ → Buffer → Reply W
  unfolding answer
  handle session security w req len tx =
      if len == 0
      then record { world = w; tx_buf = tx; out = [] }
      else if not (is_extended session)
      then refuse w tx (req 0) Nrc.sub_function_not_supported_in_active_sess
      else if not (is_unlocked security)
      then refuse w tx (req 0) Nrc.security_access_denied
      else if ltb len 4
      then refuse w tx (req 0) Nrc.incorrect_length_or_invalid_format
      else let (w', ret, status_out) =
          app.io_control w (be16 (req 1) (req 2)) (req 3) (slice 4 (len - 4) req) in
        answer w' ret (stored status_out 0) req tx

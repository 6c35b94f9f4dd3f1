-- ===== src/WriteDid.antt =====
-- src/uds_write_did.c: WriteDataByIdentifier (0x2E).
pub mod Accepted
use zephyr_uds.Base.{
  ℕ, ◌+◌, ◌-◌, Bool, true, false, not, [], ◌∷◌, ltb, ◌==◌, if◌then◌else◌, u8, be16, Buffer, store,
  slice,
}
use zephyr_uds.Types.{
  SessionType, extended_session, SecurityStatus, Ret, success, failure, einval, enoent, send,
}
use zephyr_uds.Types.Nrc
use zephyr_uds.Platform.{App, Reply, refuse}
use zephyr_uds.Security.{is_unlocked}

abbrev pub is_extended : SessionType → Bool
is_extended extended_session = true
is_extended _ = false

module _ {W : Type 0} (app : App W) where
  -- The ladder over `ret`.
  unfoldable pub answer : W → Ret → Buffer → Buffer → Reply W
  answer w success req tx =
      let tx' = store (store (store tx 0 (u8 (req 0 + 0x40))) 1 (req 1)) 2 (req 2) in
      record { world = w; tx_buf = tx'; out = send (slice 0 3 tx') ∷ [] }
  answer w (failure einval) req tx = refuse w tx (req 0) Nrc.incorrect_length_or_invalid_format
  answer w (failure enoent) req tx = refuse w tx (req 0) Nrc.request_out_of_range
  answer w (failure _) req tx = refuse w tx (req 0) Nrc.conditions_not_correct

  -- uds_write_did_handle
  unfoldable pub handle : SessionType → SecurityStatus → W → Buffer → ℕ → Buffer → Reply W
  unfolding answer
  handle session security w req len tx =
      if len == 0
      then record { world = w; tx_buf = tx; out = [] }
      else if not (is_extended session)
      then refuse w tx (req 0) Nrc.sub_function_not_supported_in_active_sess
      else if ltb len 3
      then refuse w tx (req 0) Nrc.incorrect_length_or_invalid_format
      else if not (is_unlocked security)
      then refuse w tx (req 0) Nrc.security_access_denied
      else let (w', ret) = app.write_did w (be16 (req 1) (req 2)) (slice 3 (len - 3) req) in
        answer w' ret req tx

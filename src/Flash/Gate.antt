-- ===== src/Flash/Gate.antt =====
-- src/uds_flash_pipeline.c: who may start a download, and what a refused one leaves behind.
use zephyr_uds.Base.{ℕ, ◌+◌, ◌/◌, ◌≤◌, ◌≡◌, ◌≢◌, ◌↔◌, [], ◌∷◌, u8, Buffer, arith}
use zephyr_uds.Types.{SessionType, default_session, SecurityStatus, unlocked, success, send}
use zephyr_uds.Platform.{Config, App}
use zephyr_uds.Flash.{Flash, address_len, size_len, read_field, start_download, request_download}

module _ {W : Type 0} (c : Config) (app : App W) where
  abbrev pub download_address : Buffer → ℕ
  download_address req = read_field req 3 (address_len (req 2)) 0

  abbrev pub download_size : Buffer → ℕ
  download_size req = read_field req (3 + address_len (req 2)) (size_len (req 2)) 0

  -- What a download needs: a session other than the default one, access unlocked, a request of the
  -- length that its format byte announces.
  pub record DownloadAllowed (session : SessionType) (security : SecurityStatus) (req : Buffer)
      (len : ℕ) : Type 0 where
    pub in_session : session ≢ default_session
    pub access : security ≡ unlocked
    pub not_short : 5 ≤ len
    pub whole : len ≡ 3 + address_len (req 2) + size_len (req 2)

  -- A download request gets the positive response, with the buffer's size in it, exactly when the
  -- session is not the default one, access is unlocked, the request has the length that its format
  -- byte announces, at least five, and the application erases what address and size say.
  pub download_accepted_iff :
      (session : SessionType) (security : SecurityStatus) (w : W) (f : Flash) (req : Buffer)
      (len : ℕ) (tx : Buffer)
      → let (f', r) = request_download c app session security w f req len tx in
        (r.out
          ≡ send (u8 (req 0 + 0x40) ∷ 0x20 ∷ u8 (c.buff_size / 256) ∷ u8 c.buff_size ∷ []) ∷ [])
        ↔ (DownloadAllowed session security req len
            × ((app.flash_erase_target w (download_address req) (download_size req)).1 ≡ success))
  unfolding request_download start_download
  download_accepted_iff session security w f req len tx = (ground arith, ground arith)

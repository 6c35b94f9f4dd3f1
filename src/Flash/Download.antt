-- ===== src/Flash/Download.antt =====
-- src/uds_flash_pipeline.c: a download from the request to the exit, and a refused one.
use mathlib.Core.List.{flatten}
use zephyr_uds.Base.{
  ℕ, ◌+◌, ◌-◌, ◌^◌, ◌≤◌, ◌<◌, ◌≡◌, sym, ap, ◌∙◌, false, List, [], ◌∷◌, length, u32, Buffer, copy,
  slice, arith,
}
use zephyr_uds.Types.{SessionType, SecurityStatus, success, failure, Errno, send, nrc}
use zephyr_uds.Types.Nrc
use zephyr_uds.Platform.{Config, App}
use zephyr_uds.Flash.{
  Flash, idle, is_idle, start_download, request_download, transfer_data, transfer_exit,
}
use zephyr_uds.Flash.Gate.{DownloadAllowed, download_address, download_size}
use zephyr_uds.Flash.Stream.{Writable, NonEmpty, stream, stream_fills, acknowledgements}

module _ {W : Type 0} (c : Config) (app : App W) where
  -- What an accepted download starts from.
  accepted_start :
      (session : SessionType) (security : SecurityStatus) (w : W) (f : Flash) (req : Buffer)
      (len : ℕ) (tx : Buffer)
      → DownloadAllowed c app session security req len
      → (app.flash_erase_target w (download_address c app req) (download_size c app req)).1
        ≡ success
      → let f' = (request_download c app session security w f req len tx).0 in
        (f'.memory_address ≡ download_address c app req)
        × (f'.bytes_received ≡ 0)
        × (f'.expected_block_counter ≡ 1)
        × (is_idle f'.pipeline_state ≡ false)
  unfolding request_download start_download
  accepted_start session security w f req len tx allowed erased = ground arith

  -- A download that is allowed and erased, and then gets its blocks from counter 1 on, leaves the
  -- payloads end to end in the flash from the requested address on, and nothing else changed since
  -- the erasure; every block is acknowledged; and the exit request is answered positively and makes
  -- the pipeline idle. There is a block, no block is empty, and the blocks lie where the flash is
  -- writable.
  pub download_fills :
      (memory : W → Buffer) (low high : ℕ)
      → Writable app memory low high
      → high < 2 ^ 32
      → (session : SessionType) (security : SecurityStatus) (w : W) (f : Flash) (req : Buffer)
        (len : ℕ) (tx : Buffer) (payload : List ℕ) (rest : List (List ℕ)) (exit : Buffer)
      → DownloadAllowed c app session security req len
      → (app.flash_erase_target w (download_address c app req) (download_size c app req)).1
        ≡ success
      → NonEmpty (payload ∷ rest)
      → low ≤ download_address c app req
      → download_address c app req + length (flatten (payload ∷ rest)) ≤ high
      → exit 0 ≡ 0x37
      → let (f1, r) = request_download c app session security w f req len tx in
        let (w2, f2, acks) = stream app r.world f1 r.tx_buf 1 (payload ∷ rest) in
        let (f3, done) = transfer_exit w2 f2 exit r.tx_buf in
        (memory w2 ≡ copy (memory r.world) (download_address c app req) (flatten (payload ∷ rest)))
        × (acks ≡ acknowledgements 1 (payload ∷ rest))
        × (f3.pipeline_state ≡ idle)
        × (done.out ≡ send (0x77 ∷ []) ∷ [])
  unfolding transfer_exit
  download_fills memory low high can fits session security w f req len tx payload rest exit allowed
        erased full above below exits =
      let (f1, r) = request_download c app session security w f req len tx in
      let (address, none_yet, first, busy) =
        accepted_start session security w f req len tx allowed erased in
      let (filled, counted, same, state, acked) =
        stream_fills app memory low high can fits r.world f1 r.tx_buf 1 (payload ∷ rest) (sym first)
          busy full (rw address above) (omega (arith, address, none_yet)) in
      (
        filled
            ∙ ap (λ k. copy (memory r.world) k (flatten (payload ∷ rest)))
                (omega (arith, address, none_yet)),
        acked,
        ground (arith, state),
        ground (arith, state, exits),
      )

  -- The flaw of a refused download: while a transfer is under way, a download request that passes
  -- the checks and whose erasure fails is answered with code 0x70, and yet the pipeline goes on in
  -- the state and with the counter that it had, from the refused address: the next block that is
  -- due is written behind that address, which was not erased.
  pub refused_download_redirects :
      (session : SessionType) (security : SecurityStatus) (w : W) (f : Flash) (req : Buffer)
      (len : ℕ) (tx : Buffer) (e : Errno) (block : Buffer) (block_len : ℕ)
      → DownloadAllowed c app session security req len
      → (app.flash_erase_target w (download_address c app req) (download_size c app req)).1
        ≡ failure e
      → is_idle f.pipeline_state ≡ false
      → 3 ≤ block_len
      → block 1 ≡ f.expected_block_counter
      → let (f', r) = request_download c app session security w f req len tx in
        let (f'', r') = transfer_data app r.world f' block block_len tx in
        (r.out ≡ nrc (req 0) Nrc.upload_download_not_accepted ∷ [])
        × (f'.pipeline_state ≡ f.pipeline_state)
        × (r'.world
            ≡ (app.flash_write_block r.world
                (u32 (download_address c app req + f.bytes_received))
                (slice 2 (block_len - 2) block)).0)
  unfolding request_download start_download transfer_data
  refused_download_redirects session security w f req len tx e block block_len allowed refused busy
        long due =
      ground arith

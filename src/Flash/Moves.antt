-- ===== src/Flash/Moves.antt =====
-- src/uds_flash_pipeline.c: the three handlers make the moves of a device that is programmed.
use zephyr_uds.Base.{
  ℕ, ◌-◌, ◌≤◌, ◌≡◌, ◌≢◌, ◌⊎◌, inl, inr, refl, ap, ◌∙◌, true, false, length-slice, Buffer, slice,
  arith,
}
use zephyr_uds.Types.{SessionType, default_session, SecurityStatus, unlocked, success}
use zephyr_uds.Platform.{Config, App}
use zephyr_uds.Flash.{
  Flash, idle, is_idle, is_transferring, start_download, request_download, transfer_data,
  transfer_exit,
}
use zephyr_uds.Flash.Gate.{download_address, download_size}
use zephyr_uds.Flash.Programming.{
  Device, opened, advanced, write_offset, Act, download, block, leave, Program, keep, open_download,
  refuse_download, write_block, refuse_block, close, WritesFlash,
}

module _ {W : Type 0} (app : App W) (memory : W → Buffer) (session : SessionType)
    (access : SecurityStatus) where
  -- The device with that session and access.
  abbrev pub at : W → Flash → Device
  at w f = record { session = session; access = access; flash = f; memory = memory w }

  pub stays :
      (act : Act) (w w' : W) (f f' : Flash) → f' ≡ f → w' ≡ w → Program act (at w f) (at w' f')
  stays act w w' f f' same world = keep same (ap memory world) refl refl

  request_download-cases :
      (c : Config) (w : W) (f : Flash) (req : Buffer) (len : ℕ) (tx : Buffer)
      → let (f', r) = request_download c app session access w f req len tx in
        let address = download_address c app req in
        let size = download_size c app req in
        ((f' ≡ f) × (r.world ≡ w))
        ⊎ ((session ≢ default_session)
            × (access ≡ unlocked)
            × (r.world ≡ (app.flash_erase_target w address size).0)
            × ((f' ≡ opened address size)
                ⊎ (f' ≡ record f { memory_address = address; memory_size = size })))
  unfolding request_download start_download
  request_download-cases c w f req len tx = ground arith

  pub request_download-Program :
      WritesFlash app memory
      → (c : Config) (w : W) (f : Flash) (req : Buffer) (len : ℕ) (tx : Buffer)
      → let (f', r) = request_download c app session access w f req len tx in
        Program
          (download (download_address c app req) (download_size c app req))
          (at w f)
          (at r.world f')
  request_download-Program laws c w f req len tx =
      let (f', r) = request_download c app session access w f req len tx in
      let address = download_address c app req in
      let size = download_size c app req in
      elim (request_download-cases c w f req len tx) [
        | inl (same, world) ↦ stays (download address size) w r.world f f' same world
        | inr (outside, access_open, world, inl opens) ↦
            open_download (outside, access_open) (rw world (laws.erases w address size)) opens refl
              refl
        | inr (outside, access_open, world, inr refuses) ↦
            refuse_download (outside, access_open) (rw world (laws.erases w address size)) refuses
              refl refl
      ]

  transfer_data-cases :
      (w : W) (f : Flash) (req : Buffer) (len : ℕ) (tx : Buffer)
      → let (f', r) = transfer_data app w f req len tx in
        let payload = slice 2 (len - 2) req in
        let (w', wrote) = app.flash_write_block w (write_offset f) payload in
        ((f' ≡ f) × (r.world ≡ w))
        ⊎ ((is_idle f.pipeline_state ≡ false)
            × (req 1 ≡ f.expected_block_counter)
            × (r.world ≡ w')
            × ((f' ≡ f) ⊎ ((wrote ≡ success) × (1 ≤ len - 2) × (f' ≡ advanced f (len - 2)))))
  unfolding transfer_data
  transfer_data-cases w f req len tx = ground arith

  pub transfer_data-Program :
      WritesFlash app memory
      → (w : W) (f : Flash) (req : Buffer) (len : ℕ) (tx : Buffer)
      → let (f', r) = transfer_data app w f req len tx in
        Program (block (req 1) (slice 2 (len - 2) req)) (at w f) (at r.world f')
  transfer_data-Program laws w f req len tx =
      let (f', r) = transfer_data app w f req len tx in
      let payload = slice 2 (len - 2) req in
      let size = length-slice 2 (len - 2) req in
      elim (transfer_data-cases w f req len tx) [
        | inl (same, world) ↦ stays (block (req 1) payload) w r.world f f' same world
        | inr (busy, due, world, inl same) ↦
            refuse_block busy due (rw world (laws.writes w (write_offset f) payload)) same refl refl
        | inr (busy, due, world, inr (wrote, some_bytes, more)) ↦
            write_block busy due (rw size some_bytes)
              (ap memory world ∙ laws.written w (write_offset f) payload wrote) (rw size more) refl
              refl
      ]

  transfer_exit-cases :
      (w : W) (f : Flash) (req tx : Buffer)
      → let (f', r) = transfer_exit w f req tx in
        ((f' ≡ f) × (r.world ≡ w))
        ⊎ ((is_transferring f.pipeline_state ≡ true)
            × (r.world ≡ w)
            × (f' ≡ record f { pipeline_state = idle }))
  unfolding transfer_exit
  transfer_exit-cases w f req tx = ground arith

  pub transfer_exit-Program :
      (w : W) (f : Flash) (req tx : Buffer)
      → let (f', r) = transfer_exit w f req tx in Program leave (at w f) (at r.world f')
  transfer_exit-Program w f req tx =
      let (f', r) = transfer_exit w f req tx in
      elim (transfer_exit-cases w f req tx) [
        | inl (same, world) ↦ stays leave w r.world f f' same world
        | inr (under_way, world, ends) ↦ close under_way (ap memory world) ends refl refl
      ]

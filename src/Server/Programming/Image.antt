-- ===== src/Server/Programming/Image.antt =====
-- src/uds_flash_pipeline.c within src/uds_server.c: what the flash holds of the blocks that were
-- acknowledged, through a request of any service.
use zephyr_uds.Base.{
  ℕ, ◌-◌, ◌≤◌, ◌≡◌, ◌⊎◌, inl, inr, refl, true, false, none, some, List, [], ◌++◌, length,
  length-slice, if◌then◌else◌, Buffer, slice, arith,
}
use zephyr_uds.Types.{SessionType, SecurityStatus, physical, success, Out}
use zephyr_uds.Platform.{Config, App}
use zephyr_uds.Session
use zephyr_uds.Flash
use zephyr_uds.Flash.{Flash, is_idle}
use zephyr_uds.Flash.Gate.{download_address, download_size}
use zephyr_uds.Flash.Programming.{opened, advanced, write_offset, WritesFlash}
use zephyr_uds.Flash.Image.{
  has_response, has_refusal, Image, more, Holds, refused-Holds, written-Holds, opened-Holds,
}
use zephyr_uds.Server.State.{perform, perform_all, send_nrc}
use zephyr_uds.Server.Process.{Service, request_download, transfer_data}

-- What a physical message makes of the image, by its service, its payload and the frames that
-- answer it.
abbrev pub image_by : Service → Image → List ℕ → List Out → Image
image_by request_download image payload calls =
    if has_response 0x74 calls then some [] else if has_refusal 0x34 0x70 calls then none else image
image_by transfer_data image payload calls =
    if has_response 0x76 calls then more image payload else image
image_by _ image payload calls = image

-- The frames behind the restart of the S3 timer.
has_response-refresh :
    (c : Config) (session : SessionType) (sid : ℕ) (calls : List Out)
    → has_response sid (Session.refresh_timer c session ++ calls) ≡ has_response sid calls
unfolding Session.refresh_timer
has_response-refresh c session sid calls = ground arith

has_refusal-refresh :
    (c : Config) (session : SessionType) (sid code : ℕ) (calls : List Out)
    → has_refusal sid code (Session.refresh_timer c session ++ calls) ≡ has_refusal sid code calls
unfolding Session.refresh_timer
has_refusal-refresh c session sid code calls = ground arith

pub image_by-refresh :
    (c : Config) (session : SessionType) (v : Service) (image : Image) (payload : List ℕ)
    (calls : List Out)
    → image_by v image payload (Session.refresh_timer c session ++ calls)
      ≡ image_by v image payload calls
image_by-refresh c session request_download image payload calls =
    rw (has_response-refresh c session 0x74 calls, has_refusal-refresh c session 0x34 0x70 calls)
      refl
image_by-refresh c session transfer_data image payload calls =
    rw (has_response-refresh c session 0x76 calls) refl
image_by-refresh c session _ image payload calls = refl

module _ {W : Type 0} (app : App W) (memory : W → Buffer) where
  transfer_data-answers :
      (w : W) (f : Flash) (req : Buffer) (len : ℕ) (tx : Buffer)
      → req 0 ≡ 0x36
      → let (f', r) = Flash.transfer_data app w f req len tx in
        let (w', wrote) = app.flash_write_block w (write_offset f) (slice 2 (len - 2) req) in
        let acked = has_response 0x76 (perform_all physical r.out) in
        ((f' ≡ f) × (r.world ≡ w) × (acked ≡ false))
        ⊎ ((is_idle f.pipeline_state ≡ false) × (f' ≡ f) × (r.world ≡ w') × (acked ≡ false))
        ⊎ ((is_idle f.pipeline_state ≡ false)
            × (f' ≡ advanced f (len - 2))
            × (r.world ≡ w')
            × (acked ≡ true)
            × (wrote ≡ success)
            × (1 ≤ len - 2))
  unfolding Flash.transfer_data perform_all perform send_nrc
  transfer_data-answers w f req len tx sid = ground arith

  pub transfer_data-Holds :
      WritesFlash app memory
      → (image : Image) (w : W) (f : Flash) (req : Buffer) (len : ℕ) (tx : Buffer) → req 0 ≡ 0x36
      → Holds image f (memory w)
      → let (f', r) = Flash.transfer_data app w f req len tx in
        let calls = perform_all physical r.out in
        Holds (image_by transfer_data image (slice 2 (len - 2) req) calls) f' (memory r.world)
  transfer_data-Holds laws image w f req len tx sid held =
      let (f', r) = Flash.transfer_data app w f req len tx in
      let payload = slice 2 (len - 2) req in
      let size = length-slice 2 (len - 2) req in
      elim (transfer_data-answers w f req len tx sid) [
        | inl (same, world, quiet) ↦ rw (same, world, quiet) held
        | inr (inl (busy, same, world, quiet)) ↦
            let kept = laws.writes w (write_offset f) payload in
            rw (same, world, quiet)
              (refused-Holds image f (memory w)
                (memory (app.flash_write_block w (write_offset f) payload).0) (length payload) kept
                held)
        | inr (inr (busy, goes, world, acked, wrote, some_bytes)) ↦
            let there = laws.written w (write_offset f) payload wrote in
            let done = written-Holds image f (memory w) payload busy held in
            let done' = rw size at done in rw (goes, world, acked, there) done'
      ]

  request_download-answers :
      (c : Config) (session : SessionType) (access : SecurityStatus) (w : W) (f : Flash)
      (req : Buffer) (len : ℕ) (tx : Buffer)
      → req 0 ≡ 0x34
      → let (f', r) = Flash.request_download c app session access w f req len tx in
        let calls = perform_all physical r.out in
        let accepted = has_response 0x74 calls in
        let refused = has_refusal 0x34 0x70 calls in
        ((f' ≡ f) × (r.world ≡ w) × (accepted ≡ false) × (refused ≡ false))
        ⊎ ((f' ≡ opened (download_address c app req) (download_size c app req)) × (accepted ≡ true))
        ⊎ ((accepted ≡ false) × (refused ≡ true))
  unfolding Flash.request_download Flash.start_download perform_all perform send_nrc
  request_download-answers c session access w f req len tx sid = ground arith

  pub request_download-Holds :
      (image : Image) (c : Config) (session : SessionType) (access : SecurityStatus) (w : W)
      (f : Flash) (req : Buffer) (len : ℕ) (tx : Buffer)
      → req 0 ≡ 0x34
      → Holds image f (memory w)
      → let (f', r) = Flash.request_download c app session access w f req len tx in
        let calls = perform_all physical r.out in
        Holds (image_by request_download image (slice 2 (len - 2) req) calls) f' (memory r.world)
  request_download-Holds image c session access w f req len tx sid held =
      let (f', r) = Flash.request_download c app session access w f req len tx in
      elim (request_download-answers c session access w f req len tx sid) [
        | inl (same, world, quiet, quiet') ↦ rw (same, world, quiet, quiet') held
        | inr (inl (opens, accepted)) ↦
            rw (opens, accepted)
              (opened-Holds (download_address c app req) (download_size c app req) (memory r.world))
        | inr (inr (quiet, refused)) ↦
            rw (quiet, refused) (λ bytes e busy fits. absurd (ground arith))
      ]

  pub transfer_exit-Holds :
      (image : Image) (w : W) (f : Flash) (req tx : Buffer)
      → Holds image f (memory w)
      → let (f', r) = Flash.transfer_exit w f req tx in Holds image f' (memory r.world)
  unfolding Flash.transfer_exit
  transfer_exit-Holds image w f req tx held bytes e busy fits =
      let once = held bytes e in ground (arith, once)

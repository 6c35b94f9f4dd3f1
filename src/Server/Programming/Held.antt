-- ===== src/Server/Programming/Held.antt =====
-- src/uds_flash_pipeline.c within src/uds_server.c: what the flash holds of the
-- acknowledged blocks, through any event.
use mathlib.Core.Path.{fun_ext, subst}
use zephyr_uds.Base.{
  ℕ, ◌-◌, ◌≡◌, ◌≢◌, refl, sym, ◌∙◌, false, List, [], ◌∷◌, length, drop, take-length, get_or, ◌==◌,
  Buffer, copy, slice, slice-copy_part, arith,
}
use zephyr_uds.Types.{Addressing, physical, functional, Out}
use zephyr_uds.Platform.{Config, Os, App, security_fs}
use zephyr_uds.Security
use zephyr_uds.Security.{counter_id, lockout_state_id}
use zephyr_uds.Flash.Image.{Image, Holds}
use zephyr_uds.Server.State.{Server, perform_all}
use zephyr_uds.Server.Services
use zephyr_uds.Server.Process.{
  Service, security_access, request_download, transfer_data, transfer_exit, service, serve,
  process_request,
}
use zephyr_uds.Server.Machine.{
  Event, received, lockout_expires, clear_dtc_runs, routine_runs, periodic_runs, step, receive,
}
use zephyr_uds.Server.Quiet.{
  Same, serve-Same, clear_worker-Same, routine_worker-Same, thread_round-Same,
}
use zephyr_uds.Server.Programming.{IsTarget, serve-flash, handle_request-Same}
use zephyr_uds.Server.Programming.Image.{
  image_by, image_by-refresh, transfer_data-Holds, request_download-Holds, transfer_exit-Holds,
}

-- What an event makes of the image.
abbrev pub image_after : Image → Event → List Out → Image
image_after image (received physical bytes) calls =
    image_by (service (get_or bytes 0 0)) image (drop 2 bytes) calls
image_after image _ calls = image

slice-payload :
    (rx : Buffer) (bytes : List ℕ) → slice 2 (length bytes - 2) (copy rx 0 bytes) ≡ drop 2 bytes
slice-payload rx [] = refl
slice-payload rx (b ∷ []) = refl
slice-payload rx (b ∷ k ∷ payload) =
    let short : length (b ∷ k ∷ payload) - 2 ≡ length payload = omega arith in
    rw short (
      slice-copy_part rx 0 2 (length payload) (b ∷ k ∷ payload) (omega arith) ∙ take-length payload)

is_download : (sid : ℕ) → request_download ≡ service sid → sid ≡ 0x34
unfolding service
is_download sid e = ground arith

is_transfer : (sid : ℕ) → transfer_data ≡ service sid → sid ≡ 0x36
unfolding service
is_transfer sid e = ground arith

module _ {W : Type 0} (c : Config) (os : Os W) (app : App W) (memory : W → Buffer) where
  serve-memory :
      IsTarget c os app memory
      → (v : Service) (a : Addressing) (s : Server W) (req : Buffer) (len : ℕ)
      → v ≢ request_download
      → v ≢ transfer_data
      → Same memory s.world (serve c os app v a s req len).0.world
  serve-memory laws security_access physical s req len h k =
      unfold serve Services.security_access in
      handle_request-Same c os app memory laws s.world s.security req len s.tx_buf
  serve-memory laws security_access functional s req len h k = unfold serve in λ i. refl
  serve-memory laws v a s req len h k =
      serve-Same memory os app c laws.quiet v a s req len (λ e. cc) h k

  -- The image goes with the server.
  abbrev pub Held : Image → Server W → Type 0
  Held image s = Holds image s.flash (memory s.world)

  kept-Held :
      (image : Image) (s s' : Server W)
      → s'.flash ≡ s.flash
      → Same memory s.world s'.world
      → Held image s
      → Held image s'
  kept-Held image s s' same kept held =
      let flash : memory s'.world ≡ memory s.world = fun_ext kept in rw (same, flash) held

  -- A request by the physical address, and any other.
  serve-Held :
      IsTarget c os app memory
      → (image : Image) (v : Service) (s : Server W) (req : Buffer) (len : ℕ) → v ≡ service (req 0)
      → Held image s
      → let (s', outs) = serve c os app v physical s req len in
        Held (image_by v image (slice 2 (len - 2) req) (perform_all physical outs)) s'
  serve-Held laws image request_download s req len sid held =
      unfold serve Services.request_download in
      request_download-Holds app memory image c s.session s.security.status s.world s.flash req len
        s.tx_buf (is_download (req 0) sid) held
  serve-Held laws image transfer_data s req len sid held =
      unfold serve Services.transfer_data in
      transfer_data-Holds app memory laws.flash image s.world s.flash req len s.tx_buf
        (is_transfer (req 0) sid) held
  serve-Held laws image transfer_exit s req len sid held =
      unfold serve Services.transfer_exit in
      transfer_exit-Holds app memory image s.world s.flash req s.tx_buf held
  serve-Held laws image v s req len sid held =
      let s' = (serve c os app v physical s req len).0 in
      kept-Held image s s'
        (serve-flash c os app memory v physical s req len (λ e. cc) (λ e. cc) (λ e. cc))
        (serve-memory laws v physical s req len (λ e. cc) (λ e. cc)) held

  serve_functional-Held :
      IsTarget c os app memory
      → (image : Image) (v : Service) (s : Server W) (req : Buffer) (len : ℕ) → Held image s
      → Held image (serve c os app v functional s req len).0
  serve_functional-Held laws image request_download s req len held = unfold serve in held
  serve_functional-Held laws image transfer_data s req len held = unfold serve in held
  serve_functional-Held laws image transfer_exit s req len held = unfold serve in held
  serve_functional-Held laws image v s req len held =
      let s' = (serve c os app v functional s req len).0 in
      kept-Held image s s'
        (serve-flash c os app memory v functional s req len (λ e. cc) (λ e. cc) (λ e. cc))
        (serve-memory laws v functional s req len (λ e. cc) (λ e. cc)) held

  pub step-Held :
      IsTarget c os app memory
      → (image : Image) (s : Server W) (e : Event) → Held image s
      → let (s', calls) = step c os app s e in Held (image_after image e calls) s'
  unfolding step receive process_request
  step-Held laws image s (received physical []) held = unfold service in held
  step-Held laws image s (received physical (b ∷ bs)) held =
      let bytes = b ∷ bs in
      let req = copy s.rx_buf 0 bytes in
      let addressed = record s { rx_buf = req; current_msg_addressing = physical } in
      let (s', outs) = serve c os app (service b) physical addressed req (length bytes) in
      let served = serve-Held laws image (service b) addressed req (length bytes) refl held in
      let refreshed =
        image_by-refresh c s.session (service b) image (drop 2 bytes) (perform_all physical outs) in
      let some_bytes : (length bytes == 0) ≡ false = ground arith in
      rw some_bytes
        (subst (λ now. Held now s') (sym refreshed) (rw (slice-payload s.rx_buf bytes) at served))
  step-Held laws image s (received functional []) held = held
  step-Held laws image s (received functional (b ∷ bs)) held =
      let bytes = b ∷ bs in
      let req = copy s.rx_buf 0 bytes in
      let addressed = record s { rx_buf = req; current_msg_addressing = functional } in
      let some_bytes : (length bytes == 0) ≡ false = ground arith in
      rw some_bytes (serve_functional-Held laws image (service b) addressed req (length bytes) held)
  step-Held laws image s lockout_expires held =
      let w = os.nvs_write s.world security_fs counter_id (0 ∷ []) in
      unfold Security.lockout_timer_expiry in
      kept-Held image s (step c os app s lockout_expires).0 refl
        (λ i. laws.nvs_write w lockout_state_id 0 i ∙ laws.nvs_write s.world counter_id 0 i) held
  step-Held laws image s clear_dtc_runs held =
      kept-Held image s (step c os app s clear_dtc_runs).0 refl
        (clear_worker-Same memory os app laws.quiet s.world s.clear_dtc) held
  step-Held laws image s routine_runs held =
      kept-Held image s (step c os app s routine_runs).0 refl
        (routine_worker-Same memory os app laws.quiet s.world s.routine) held
  step-Held laws image s periodic_runs held =
      kept-Held image s (step c os app s periodic_runs).0 refl
        (thread_round-Same memory os app laws.quiet s.world s.periodic) held
  step-Held laws image s _ held = held

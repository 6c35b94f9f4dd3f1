-- ===== src/Server/Flashing.antt =====
-- src/uds_flash_pipeline.c within src/uds_server.c: a download by messages to the whole server.
pub mod Download
use mathlib.Core.List.{flatten, append_assoc}
use zephyr_uds.Base.{
  ℕ, zero, suc, ◌+◌, ◌-◌, ◌^◌, ◌≤◌, ◌<◌, ◌≡◌, ◌≢◌, ◌/◌, refl, sym, ap, ap₂, ◌∙◌, Bool, true, false,
  List, [], ◌∷◌, ◌++◌, length, take-length, u8, Buffer, copy, slice, slice-copy_part, holding,
  arith,
}
use zephyr_uds.Types.{
  SessionType, SecurityStatus, default_session, physical, Addressing, Out, send, nrc, timer_start,
  s3_timer, success,
}
use zephyr_uds.Platform.{Config, Os, App}
use zephyr_uds.Session
use zephyr_uds.Flash
use zephyr_uds.Flash.{Flash, idle, is_idle}
use zephyr_uds.Flash.Gate.{DownloadAllowed, download_address, download_size, download_accepted_iff}
use zephyr_uds.Flash.Stream.{
  Writable, NonEmpty, block_request, slice-block_request, stream, acknowledgements,
}
use zephyr_uds.Flash.Download.{download_fills}
use zephyr_uds.Server.State.{Server, perform, perform_all, send_nrc}
use zephyr_uds.Server.Services
use zephyr_uds.Server.Process.{service, serve, process_request}
use zephyr_uds.Server.Machine.{Event, received, step, receive, run}

abbrev pub block_message : ℕ → List ℕ → List ℕ
block_message counter payload = 0x36 ∷ counter ∷ payload

-- The messages of the blocks, with a counter from the given value on.
abbrev pub blocks : ℕ → List (List ℕ) → List Event
blocks counter [] = []
blocks counter (payload ∷ rest) =
    received physical (block_message counter payload) ∷ blocks (u8 (counter + 1)) rest

-- The calls outside the default session, where each request gets one of these answers.
abbrev pub answered : Config → List Out → List Out
answered c [] = []
answered c (o ∷ os) = timer_start s3_timer c.s3_timeout_ms 0 ∷ (perform physical o ++ answered c os)

pub answered-append :
    (c : Config) (xs ys : List Out) → answered c (xs ++ ys) ≡ answered c xs ++ answered c ys
answered-append c [] ys = refl
answered-append c (o ∷ os) ys =
    ap (λ rest. timer_start s3_timer c.s3_timeout_ms 0 ∷ (perform physical o ++ rest))
      (answered-append c os ys)
    ∙ ap (λ rest. timer_start s3_timer c.s3_timeout_ms 0 ∷ rest)
        (sym (append_assoc (perform physical o) (answered c os) (answered c ys)))

-- The payload in the receiving buffer.
slice-message :
    (rx : Buffer) (counter : ℕ) (payload : List ℕ)
    → slice 2 (length payload) (copy rx 0 (block_message counter payload)) ≡ payload
slice-message rx counter payload =
    slice-copy_part rx 0 2 (length payload) (block_message counter payload) (omega arith)
    ∙ take-length payload

module _ {W : Type 0} (c : Config) (os : Os W) (app : App W) where
  run-append :
      (s : Server W) (xs ys : List Event)
      → run c os app s (xs ++ ys) ≡ (
          let (s', calls) = run c os app s xs in
          let (s'', later) = run c os app s' ys in (s'', calls ++ later))
  unfolding run
  run-append s [] ys = refl
  run-append s (x ∷ xs) ys =
      let (s', calls) = step c os app s x in
      let (s'', more) = run c os app s' xs in
      let (t, later) = run c os app s'' ys in
      rw (run-append s' xs ys)
        (ap (λ all_calls. (t, all_calls)) (sym (append_assoc calls more later)))

  -- A first event, a series, and a last event.
  pub run-between :
      (s : Server W) (x y : Event) (xs : List Event)
      → run c os app s (x ∷ (xs ++ y ∷ [])) ≡ (
          let (s1, first) = step c os app s x in
          let (s2, series) = run c os app s1 xs in
          let (s3, last) = step c os app s2 y in (s3, first ++ (series ++ (last ++ []))))
  unfolding run
  run-between s x y xs =
      let (s1, first) = step c os app s x in
      ap {A = Server W × List Out} {B = Server W × List Out} (λ r. (r.0, first ++ r.1))
        (run-append s1 xs (y ∷ []))

  -- One block, as the handler takes it.
  step_block :
      (s : Server W) (counter : ℕ) (payload : List ℕ)
      → s.session ≢ default_session
      → let (f', r) =
          Flash.transfer_data app s.world s.flash
            (block_request counter payload)
            (2 + length payload)
            s.tx_buf in
        let (s', calls) = step c os app s (received physical (block_message counter payload)) in
        (s'.world ≡ r.world)
        × (s'.flash ≡ f')
        × (s'.tx_buf ≡ r.tx_buf)
        × (s'.session ≡ s.session)
        × (s'.security ≡ s.security)
        × (calls ≡ answered c r.out)
  unfolding step receive process_request serve service Services.transfer_data Flash.transfer_data
      Session.refresh_timer perform_all
  step_block s counter payload outside =
      let carried = slice-message s.rx_buf counter payload in
      let carried' = slice-block_request counter payload in
      let short : 2 + length payload - 2 ≡ length payload = omega arith in
      ground (arith, carried, carried', short)

  -- All blocks: the server's run is the stream of the handler.
  pub run-blocks :
      (s : Server W) (counter : ℕ) (payloads : List (List ℕ))
      → s.session ≢ default_session
      → let (w, f, acks) = stream app s.world s.flash s.tx_buf counter payloads in
        let (s', calls) = run c os app s (blocks counter payloads) in
        (s'.world ≡ w)
        × (s'.flash ≡ f)
        × (s'.session ≡ s.session)
        × (s'.security ≡ s.security)
        × (calls ≡ answered c acks)
  unfolding run stream
  run-blocks s counter [] outside = (refl, refl, refl, refl, refl)
  run-blocks s counter (payload ∷ rest) outside =
      let (f', r) =
        Flash.transfer_data app s.world s.flash (block_request counter payload) (2 + length payload)
          s.tx_buf in
      let (s', calls) = step c os app s (received physical (block_message counter payload)) in
      let (world, flash, tx, session, security, sent) = step_block s counter payload outside in
      let onwards = run-blocks s' (u8 (counter + 1)) rest (rw session outside) in
      let onwards' = rw (world, flash, tx) at onwards in
      let (world', flash', session', security', sent') = onwards' in
      (
        world',
        flash',
        session' ∙ session,
        security' ∙ security,
        ap₂ ◌++◌ sent sent'
            ∙ sym (
                answered-append c r.out (stream app r.world f' r.tx_buf (u8 (counter + 1)) rest).2),
      )

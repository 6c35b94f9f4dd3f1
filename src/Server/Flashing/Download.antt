-- ===== src/Server/Flashing/Download.antt =====
-- src/uds_flash_pipeline.c within src/uds_server.c: a whole download, from the request to the exit.
use mathlib.Core.List.{flatten}
use zephyr_uds.Base.{
  ℕ, ◌+◌, ◌^◌, ◌≤◌, ◌<◌, ◌≡◌, ◌≢◌, ◌/◌, refl, sym, ap, ◌∙◌, List, [], ◌∷◌, ◌++◌, length, u8, Buffer,
  copy, holding, arith,
}
use zephyr_uds.Types.{default_session, physical, Out, send, timer_start, s3_timer, success}
use zephyr_uds.Platform.{Config, Os, App}
use zephyr_uds.Session
use zephyr_uds.Flash
use zephyr_uds.Flash.{Flash, idle, is_idle}
use zephyr_uds.Flash.Gate.{DownloadAllowed, download_address, download_size, download_accepted_iff}
use zephyr_uds.Flash.Stream.{Writable, NonEmpty, stream, acknowledgements}
use zephyr_uds.Flash.Download.{download_fills}
use zephyr_uds.Server.State.{Server, perform, perform_all}
use zephyr_uds.Server.Services
use zephyr_uds.Server.Process.{service, serve, process_request}
use zephyr_uds.Server.Machine.{received, step, receive, run}
use zephyr_uds.Platform.{Reply}
use zephyr_uds.Server.Flashing.{blocks, answered, answered-append, run-between, run-blocks}

module _ {W : Type 0} (c : Config) (os : Os W) (app : App W) where
  abbrev pub request_in : Server W → List ℕ → Buffer
  request_in s message = copy s.rx_buf 0 message

  -- What the handler makes of it.
  abbrev asked : Server W → List ℕ → Flash × Reply W
  asked s message =
      Flash.request_download c app s.session s.security.status s.world s.flash
        (request_in s message) (length message) s.tx_buf

  step_request :
      (s : Server W) (body : List ℕ)
      → s.session ≢ default_session
      → let message = 0x34 ∷ body in
        let (f', r) = asked s message in
        let (s', calls) = step c os app s (received physical message) in
        (s'.world ≡ r.world)
        × (s'.flash ≡ f')
        × (s'.tx_buf ≡ r.tx_buf)
        × (s'.session ≡ s.session)
        × (s'.security ≡ s.security)
        × (calls ≡ answered c r.out)
  unfolding step receive process_request serve service Services.request_download
      Flash.request_download Flash.start_download Session.refresh_timer perform_all
  step_request s body outside = ground arith

  -- The exit does not look at the transmission buffer.
  step_exit :
      (s : Server W) (req tx : Buffer)
      → s.session ≢ default_session
      → req 0 ≡ 0x37
      → let (f', r) = Flash.transfer_exit s.world s.flash req tx in
        let (s', calls) = step c os app s (received physical (0x37 ∷ [])) in
        (s'.world ≡ s.world)
        × (s'.flash ≡ f')
        × (s'.session ≡ s.session)
        × (s'.security ≡ s.security)
        × (calls ≡ answered c r.out)
  unfolding step receive process_request serve service Services.transfer_exit Flash.transfer_exit
      Session.refresh_timer perform_all
  step_exit s req tx outside sid = ground (arith, sid)

  accepted_world :
      (s : Server W) (message : List ℕ)
      → let req = request_in s message in
        DownloadAllowed c app s.session s.security.status req (length message)
        → (asked s message).1.world
          ≡ (app.flash_erase_target s.world
              (download_address c app req)
              (download_size c app req)).0
  unfolding Flash.request_download Flash.start_download
  accepted_world s message allowed = ground arith

  -- The answers of the three parts.
  all_answered :
      (welcome : List ℕ) (acks : List Out)
      → answered c (send welcome ∷ [])
          ++ (answered c acks ++ (answered c (send (0x77 ∷ []) ∷ []) ++ []))
        ≡ answered c (send welcome ∷ (acks ++ send (0x77 ∷ []) ∷ []))
  unfolding perform
  all_answered welcome acks =
      ap (λ later. timer_start s3_timer c.s3_timeout_ms 0 ∷ send welcome ∷ later)
        (sym (answered-append c acks (send (0x77 ∷ []) ∷ [])))

  -- A tester who has access programs the flash by messages: a download request that is allowed and
  -- erased, the blocks with their counter from 1 on, and the exit. Each message is answered
  -- positively, and restarts the S3 timer; behind them the payloads lie end to end in the flash
  -- from the requested address on, nothing else changed since the erasure, the pipeline is idle,
  -- and session and access are as they were. There is a block, no block is empty, and the blocks
  -- lie where the flash is writable.
  pub tester_programs :
      (memory : W → Buffer) (low high : ℕ)
      → Writable app memory low high
      → high < 2 ^ 32
      → (s : Server W) (body payload : List ℕ) (rest : List (List ℕ))
      → let message = 0x34 ∷ body in
        let req = request_in s message in
        let at = download_address c app req in
        let erased = app.flash_erase_target s.world at (download_size c app req) in
        DownloadAllowed c app s.session s.security.status req (length message)
        → erased.1 ≡ success
        → NonEmpty (payload ∷ rest)
        → low ≤ at
        → at + length (flatten (payload ∷ rest)) ≤ high
        → let (s', calls) = run c os app s (
            received physical message
            ∷ (blocks 1 (payload ∷ rest) ++ received physical (0x37 ∷ []) ∷ [])) in
          let welcome = send (0x74 ∷ 0x20 ∷ u8 (c.buff_size / 256) ∷ u8 c.buff_size ∷ []) in
          (memory s'.world ≡ copy (memory erased.0) at (flatten (payload ∷ rest)))
          × (s'.flash.pipeline_state ≡ idle)
          × (s'.session ≡ s.session)
          × (s'.security ≡ s.security)
          × (calls
              ≡ answered c
                  (welcome ∷ (acknowledgements 1 (payload ∷ rest) ++ send (0x77 ∷ []) ∷ [])))
  tester_programs memory low high can fits s body payload rest allowed erased full above below =
      let message = 0x34 ∷ body in
      let req = request_in s message in
      let payloads = payload ∷ rest in
      let exit : Buffer = holding (0x37 ∷ []) in
      let (f1, r) = asked s message in
      let (w2, f2, acks) = stream app r.world f1 r.tx_buf 1 payloads in
      let s1 = (step c os app s (received physical message)).0 in
      let s2 = (run c os app s1 (blocks 1 payloads)).0 in
      let (world, flash, tx, session, security, sent) = step_request s body allowed.in_session in
      let (world', flash', session', security', sent') =
        rw (world, flash, tx) at
          (run-blocks c os app s1 1 payloads (rw session allowed.in_session)) in
      let (world'', flash'', session'', security'', sent'') =
        step_exit s2 exit r.tx_buf (rw (session', session) allowed.in_session) refl in
      let (filled, acked, at_rest, done) =
        download_fills c app memory low high can fits s.session s.security.status s.world s.flash
          req (length message) s.tx_buf payload rest exit allowed erased full above below refl in
      let welcomed =
        (download_accepted_iff c app s.session s.security.status s.world s.flash req
            (length message) s.tx_buf).1
          (allowed, erased) in
      let first = sent ∙ ap (λ os. answered c os) welcomed in
      let series = sent' ∙ ap (λ os. answered c os) acked in
      let last =
        sent'' ∙ ap (λ os. answered c os) {y = send (0x77 ∷ []) ∷ []} (rw (world', flash') done) in
      let welcome = 0x74 ∷ 0x20 ∷ u8 (c.buff_size / 256) ∷ u8 c.buff_size ∷ [] in
      rw
        (run-between c os app s (received physical message) (received physical (0x37 ∷ []))
          (blocks 1 payloads))
        (
          ap memory (world'' ∙ world')
              ∙ (filled
                  ∙ ap (λ w. copy (memory w) (download_address c app req) (flatten payloads))
                      (accepted_world s message allowed)),
          ap (λ f. f.pipeline_state) flash'' ∙ rw (world', flash') at_rest,
          session'' ∙ (session' ∙ session),
          security'' ∙ (security' ∙ security),
          rw (first, series, last) (all_answered welcome (acknowledgements 1 payloads)),
        )

-- ===== src/Server/Lock/Admission.antt =====
-- src/uds_security.c within src/uds_server.c: a tester who has the key gets in.
use zephyr_uds.Base.{
  ℕ, ◌+◌, ◌≤◌, ◌≡◌, ◌≢◌, sym, ap, ◌∙◌, List, [], ◌∷◌, length, if◌then◌else◌, take-length, Buffer,
  copy, store, slice, slice-prefixed, slice-copy_part, arith,
}
use zephyr_uds.Types.{
  extended_session, locked, seed_requested, unlocked, brute_force_lockout, physical, success, Out,
  send, timer_start, s3_timer,
}
use zephyr_uds.Platform.{Config, Os, App}
use zephyr_uds.Security
use zephyr_uds.Security.{Security, is_locked_out}
use zephyr_uds.Security.Guessing
use zephyr_uds.Security.Guessing.{FillsBuffer}
use zephyr_uds.Session
use zephyr_uds.Server.State.{Server, perform_all}
use zephyr_uds.Server.Services
use zephyr_uds.Server.Process.{service, serve, process_request}
use zephyr_uds.Server.Machine.{Event, received, lockout_expires, step, receive, run}

-- The messages: extended session, seed, key.
abbrev pub session_message : List ℕ
session_message = 0x10 ∷ 0x03 ∷ []

abbrev pub seed_message : List ℕ
seed_message = 0x27 ∷ 0x01 ∷ []

abbrev pub key_message : List ℕ → List ℕ
key_message key = 0x27 ∷ 0x02 ∷ key

module _ {W : Type 0} (c : Config) (os : Os W) (app : App W) where
  -- A lockout is waited for.
  abbrev pub wait : Server W → List Event
  wait s = if is_locked_out s.security.status then lockout_expires ∷ [] else []

  -- The restart of the S3 timer that comes with every request in the extended session.
  abbrev pub alive : Out
  alive = timer_start s3_timer c.s3_timeout_ms 0

  waited :
      (s : Server W)
      → let s' = (run c os app s (wait s)).0 in
        (s'.security.status ≢ brute_force_lockout)
        × (s'.security.generated_seed ≡ s.security.generated_seed)
  unfolding run step Security.lockout_timer_expiry
  waited s = ground arith

  extended :
      (s : Server W)
      → s.security.status ≢ brute_force_lockout
      → let s' = (step c os app s (received physical session_message)).0 in
        (s'.session ≡ extended_session)
        × (s'.security.status ≡ locked)
        × (s'.security.generated_seed ≡ s.security.generated_seed)
  unfolding step receive process_request serve service Services.session_control Session.set
      Services.session_of_byte Security.reset_lock
  extended s h = ground arith

  -- The frame of the seed.
  slice-seed :
      (tx : Buffer) (seed : List ℕ)
      → length seed ≡ c.seed_size
      → slice 0 (2 + c.seed_size) (copy (store (store tx 0 0x67) 1 0x01) 2 seed)
        ≡ 0x67 ∷ 0x01 ∷ seed
  slice-seed tx seed size = rw (sym size) (slice-prefixed 2 (store (store tx 0 0x67) 1 0x01) seed)

  seeded :
      FillsBuffer c os app
      → (s : Server W) → s.session ≡ extended_session
      → s.security.status ≡ locked
      → length s.security.generated_seed ≡ c.seed_size
      → let (s', calls) = step c os app s (received physical seed_message) in
        (calls ≡ alive ∷ send (0x67 ∷ 0x01 ∷ s'.security.generated_seed) ∷ [])
        × (s'.session ≡ extended_session)
        × (s'.security.status ≡ seed_requested)
        × (length s'.security.generated_seed ≡ c.seed_size)
  unfolding step receive process_request serve service Services.security_access
      Security.handle_request Security.request_seed Session.refresh_timer perform_all
  seeded fills s session status size =
      let made = Security.generate_seed c os s.world s.security in
      let whole = Guessing.length-generate_seed c os app fills s.world s.security size in
      let requested : made.1.status ≡ seed_requested =
        unfold Security.generate_seed in ground arith in
      (
        ground (arith, slice-seed s.tx_buf made.1.generated_seed whole),
        ground arith,
        ground arith,
        ground (arith, whole),
      )

  -- The key in a key message is the key.
  slice-key :
      (rx : Buffer) (key : List ℕ)
      → length key ≡ c.seed_size
      → slice 2 c.seed_size (copy rx 0 (key_message key)) ≡ key
  slice-key rx key size =
      rw (sym size)
        (slice-copy_part rx 0 2 (length key) (key_message key) (omega arith) ∙ take-length key)

  admitted :
      c.seed_size ≤ 16
      → (s : Server W) (key : List ℕ) → s.session ≡ extended_session
      → s.security.status ≡ seed_requested
      → length key ≡ c.seed_size
      → (app.verify_key_krypto s.world 1 s.security.generated_seed key).1 ≡ success
      → let (s', calls) = step c os app s (received physical (key_message key)) in
        (calls ≡ alive ∷ send (0x67 ∷ 0x02 ∷ []) ∷ [])
        × (s'.session ≡ extended_session)
        × (s'.security.status ≡ unlocked)
  unfolding step receive process_request serve service Services.security_access
      Security.handle_request Security.send_key Security.local_key Security.grant
      Session.refresh_timer perform_all
  admitted fits s key session status size accepted =
      let carried = slice-key s.rx_buf key size in
      rw carried (ground arith, ground arith, ground arith)

  -- The tester's algorithm: a key of the right length for every seed, which the verifier accepts
  -- at level 1 whatever the state of the world.
  pub record Knows (key_of : List ℕ → List ℕ) : Type 0 where
    pub accepted :
        (w : W) (seed : List ℕ) → (app.verify_key_krypto w 1 seed (key_of seed)).1 ≡ success
    pub sized : (seed : List ℕ) → length seed ≡ c.seed_size → length (key_of seed) ≡ c.seed_size

  -- From any state, after the lockout has expired if there is one, a tester who has the key gets
  -- in by three messages: the request for the extended session, the request for a seed, which is
  -- answered by the seed, and the key for that seed, which is answered positively; then the session
  -- is the extended one and access is unlocked. The seed size is at most 16, the seed in the state
  -- is a whole one, and the entropy source fills its buffer.
  pub tester_gets_in :
      c.seed_size ≤ 16
      → FillsBuffer c os app
      → (key_of : List ℕ → List ℕ) → Knows key_of
      → (s : Server W) → length s.security.generated_seed ≡ c.seed_size
      → let s0 = (run c os app s (wait s)).0 in
        let s1 = (step c os app s0 (received physical session_message)).0 in
        let (s2, answer) = step c os app s1 (received physical seed_message) in
        let seed = s2.security.generated_seed in
        let (s3, answer') = step c os app s2 (received physical (key_message (key_of seed))) in
        (answer ≡ alive ∷ send (0x67 ∷ 0x01 ∷ seed) ∷ [])
        × (answer' ≡ alive ∷ send (0x67 ∷ 0x02 ∷ []) ∷ [])
        × (s3.session ≡ extended_session)
        × (s3.security.status ≡ unlocked)
  tester_gets_in fits fills key_of knows s size =
      let s0 = (run c os app s (wait s)).0 in
      let (free, same) = waited s in
      let s1 = (step c os app s0 (received physical session_message)).0 in
      let (session, closed, same') = extended s0 free in
      let s2 = (step c os app s1 (received physical seed_message)).0 in
      let (answer, session', requested, size') =
        seeded fills s1 session closed
          (omega (arith, ap (λ xs. length xs) same, ap (λ xs. length xs) same')) in
      let seed = s2.security.generated_seed in
      let (answer', session'', opened) =
        admitted fits s2 (key_of seed) session' requested (knows.sized seed size')
          (knows.accepted s2.world seed) in
      (answer, answer', session'', opened)

-- ===== src/Server/Lock/Refinement.antt =====
-- src/uds_server.c as a whole is the automaton of SecurityAccess, driven by its messages and events.
use zephyr_uds.Base.{
  ℕ, ◌≡◌, refl, ap, ◌∙◌, false, ◌&&◌, leb, if◌then◌else◌, List, [], ◌∷◌, ◌==◌, length, Buffer, copy,
  arith,
}
use zephyr_uds.Types.{Addressing, physical, functional}
use zephyr_uds.Platform.{Config, IsConfig, Os, App}
use zephyr_uds.Security
use zephyr_uds.Security.{Security, is_locked_out}
use zephyr_uds.Security.Guessing.{IsCounting}
use zephyr_uds.Security.Persistence
use zephyr_uds.Security.Persistence.{IsPersisted}
use zephyr_uds.Security.Automaton.{
  access, Signal, relocks, expires, nothing, react, follow, request_signal, handle_request-react,
}
use zephyr_uds.Session
use zephyr_uds.Flash.{is_default}
use zephyr_uds.Server.State.{Server}
use zephyr_uds.Server.Services
use zephyr_uds.Server.Process.{
  Service, security_access, session_control, service, serve, process_request,
}
use zephyr_uds.Server.Machine.{
  Event, received, s3_expires, lockout_expires, Moment, happens, restarts, power_on, restart, step,
  receive, moment, live,
}
use zephyr_uds.Server.Machine
use zephyr_uds.Server.Lock.Reboot.{serve-security, keep-IsPersisted}
use zephyr_uds.Server.Lock.Sound.{Behaved, IsSound, moment-IsSound}

module _ {W : Type 0} (c : Config) (os : Os W) (app : App W) where
  -- The signal of a message, by its service: a change of session relocks where the session is one
  -- of the three.
  abbrev pub message_signal : Service → Addressing → W → Security → Buffer → ℕ → Signal
  message_signal security_access physical w s req len = request_signal c os app w s req len
  message_signal session_control a w s req len =
      if leb 2 len && (leb 1 (req 1) && leb (req 1) 3) then relocks else nothing
  message_signal _ a w s req len = nothing

  -- The signal of each moment of a life: a session that ends by its timeout relocks, and so does a
  -- start.
  abbrev pub signal : Server W → Moment → Signal
  signal s (happens (received a [])) = nothing
  signal s (happens (received a (b ∷ bs))) =
      message_signal (service b) a s.world s.security (copy s.rx_buf 0 (b ∷ bs)) (length (b ∷ bs))
  signal s (happens s3_expires) = if is_default s.session then nothing else relocks
  signal s (happens lockout_expires) = expires
  signal s (happens _) = nothing
  signal s (restarts stack data_len) = relocks

  unfoldable pub signals : Server W → List Moment → List Signal
  signals s [] = []
  signals s (m ∷ rest) = signal s m ∷ signals (moment c os app s m) rest

  abbrev Reacts : Security → Signal → Security → Type 0
  Reacts s x s' = access s' ≡ react c.max_failed_attempts s.status s.failed_attempts_counter x

  unmoved : (s s' : Security) → s' ≡ s → Reacts s nothing s'
  unmoved s s' same = ap access same

  serve-Reacts :
      IsConfig c
      → (v : Service) (a : Addressing) (s : Server W) (req : Buffer) (len : ℕ)
      → IsCounting c s.security
      → Reacts s.security
          (message_signal v a s.world s.security req len)
          (serve c os app v a s req len).0.security
  serve-Reacts v session_control a s req len k =
      unfold serve Services.session_control Services.session_of_byte Security.reset_lock in
      ground arith
  serve-Reacts v security_access physical s req len k =
      unfold serve Services.security_access in
      handle_request-react c os app v s.world s.security req len s.tx_buf k
  serve-Reacts v security_access functional s req len k = unfold serve in refl
  serve-Reacts v w a s req len k =
      let s' = (serve c os app w a s req len).0 in
      unmoved s.security s'.security (serve-security c os app w a s req len (λ e. cc) (λ e. cc))

  step-Reacts :
      IsConfig c
      → (s : Server W) (e : Event) → IsCounting c s.security
      → Reacts s.security (signal s (happens e)) (step c os app s e).0.security
  unfolding step receive process_request
  step-Reacts v s (received a []) k = refl
  step-Reacts v s (received a (b ∷ bs)) k =
      let bytes = b ∷ bs in
      let req = copy s.rx_buf 0 bytes in
      let addressed = record s { rx_buf = req; current_msg_addressing = a } in
      let some_bytes : (length bytes == 0) ≡ false = ground arith in
      rw some_bytes (serve-Reacts v (service b) a addressed req (length bytes) k)
  step-Reacts v s s3_expires k = unfold Session.s3_timer_expiry Security.reset_lock in ground arith
  step-Reacts v s lockout_expires k = unfold Security.lockout_timer_expiry in ground arith
  step-Reacts v s _ k = refl

  -- A start, from what was stored.
  security_init-Reacts :
      Behaved c os app
      → (w : W) (s : Security) → IsCounting c s
      → IsPersisted c os app w s
      → Reacts s relocks (Security.init c os w (Security.power_on c)).1
  security_init-Reacts h w s k p =
      let (sectors, sized) = h.up.sized w in
      let (same, status, counter) =
        Persistence.reboot_keeps_lockout c os app h.nvs h.valid w s sectors (h.up.storage w) sized
          (h.up.mounted w) k p in
      ground (arith, k.locked_at_limit, k.within_limit)

  restarted-security :
      Behaved c os app
      → (s : Server W) (stack : Buffer) (data_len : ℕ)
      → (moment c os app s (restarts stack data_len)).security
        ≡ (Security.init c os (os.can_start s.world).0 (Security.power_on c)).1
  unfolding moment restart power_on Machine.init
  restarted-security h s stack data_len = ground (arith, h.up.can s.world)

  moment-Reacts :
      Behaved c os app
      → (s : Server W) (m : Moment) → IsSound c os app s
      → Reacts s.security (signal s m) (moment c os app s m).security
  moment-Reacts h s (happens e) sound = unfold moment in step-Reacts h.valid s e sound.counting
  moment-Reacts h s (restarts stack data_len) sound =
      let w = (os.can_start s.world).0 in
      let kept =
        keep-IsPersisted c os app s.world w s.security (h.isolated.quiet.can_start s.world)
          sound.persisted in
      rw (restarted-security h s stack data_len)
        (security_init-Reacts h w s.security sound.counting kept)

  -- Over any life of the controller, of messages, expiries, work items and samples, with reboots and
  -- losses of power between any two of them, the status and the number of failed keys are those of
  -- the automaton of SecurityAccess, driven by the signals of the life one by one. A message gives
  -- its signal by its service, its addressing, its bytes and, for a key, the verifier's word on it
  -- and the seed that was generated; the S3 timeout relocks outside the default session; a start
  -- relocks. So a lockout ends by its expiry, and neither by a change of session nor by a start;
  -- access is opened by a key that fits and comes behind a seed; and each other key behind a seed is
  -- counted. The platform and the application keep what they promise, and at first the counter was
  -- right and stored.
  pub live-eq-follow :
      Behaved c os app
      → (s : Server W) (life : List Moment) → IsSound c os app s
      → access (live c os app s life).security
        ≡ follow c.max_failed_attempts (access s.security) (signals s life)
  unfolding live follow signals
  live-eq-follow h s [] sound = refl
  live-eq-follow h s (m ∷ rest) sound =
      let s' = moment c os app s m in
      live-eq-follow h s' rest (moment-IsSound c os app h s m sound)
      ∙ ap (λ a. follow c.max_failed_attempts a (signals s' rest)) (moment-Reacts h s m sound)

-- ===== src/Server/Lock/Sound.antt =====
-- src/uds_security.c within src/uds_server.c: the counter and its copy in NVS over the life of a
-- controller that is switched off and on.
use zephyr_uds.Base.{ℕ, ◌≤◌, Bool-cases, inl, inr, List, [], ◌∷◌, ◌==◌, length, Buffer, copy, arith}
use zephyr_uds.Types.{Addressing, physical, functional}
use zephyr_uds.Platform.{Config, IsConfig, Os, App}
use zephyr_uds.Security
use zephyr_uds.Security.Guessing
use zephyr_uds.Security.Guessing.{IsCounting, FillsBuffer}
use zephyr_uds.Security.Persistence.{NvsLaws, IsPersisted}
use zephyr_uds.Session
use zephyr_uds.Server.State.{Server}
use zephyr_uds.Server.Services
use zephyr_uds.Server.Process.{
  Service, security_access, session_control, service, serve, process_request,
}
use zephyr_uds.Server.Machine.{
  Event, received, s3_expires, lockout_expires, Moment, happens, restarts, power_on, restart, step,
  receive, moment, live,
}
use zephyr_uds.Server.Machine
use zephyr_uds.Server.Lock.Isolation.{Isolated}
use zephyr_uds.Server.Lock.Reboot.{
  Ready, serve-security, keep-IsPersisted, step-IsPersisted, security_init-IsSound,
}

module _ {W : Type 0} (c : Config) (os : Os W) (app : App W) where
  -- The counter is right, and NVS holds it.
  pub record IsSound (s : Server W) : Type 0 where
    pub counting : IsCounting c s.security
    pub persisted : IsPersisted c os app s.world s.security

  -- A platform and an application that keep what they promise: the controller comes up at every
  -- start, NVS keeps its laws, the entropy source fills its buffer, and the hooks leave the
  -- module's file system alone.
  pub record Behaved : Type 0 where
    pub valid : IsConfig c
    pub fills : FillsBuffer c os app
    pub nvs : NvsLaws c os app
    pub isolated : Isolated os app
    pub up : Ready c os app

  serve-IsCounting :
      IsConfig c
      → FillsBuffer c os app
      → (v : Service) (a : Addressing) (s : Server W) (req : Buffer) (len : ℕ)
      → IsCounting c s.security
      → IsCounting c (serve c os app v a s req len).0.security
  serve-IsCounting v fills session_control a s req len k =
      unfold serve Services.session_control Security.reset_lock in ground arith
  serve-IsCounting v fills security_access physical s req len k =
      unfold serve Services.security_access in
      Guessing.handle_request-IsCounting c os app v fills s.world s.security req len s.tx_buf k
  serve-IsCounting v fills security_access functional s req len k = unfold serve in k
  serve-IsCounting v fills w a s req len k =
      rw (serve-security c os app w a s req len (λ e. cc) (λ e. cc)) k

  pub step-IsCounting :
      IsConfig c
      → FillsBuffer c os app
      → (s : Server W) (e : Event) → IsCounting c s.security
      → IsCounting c (step c os app s e).0.security
  unfolding step receive process_request
  step-IsCounting v fills s (received a bytes) k =
      let req = copy s.rx_buf 0 bytes in
      let addressed = record s { rx_buf = req; current_msg_addressing = a } in
      let served = serve-IsCounting v fills (service (req 0)) a addressed req (length bytes) k in
      elim (Bool-cases (length bytes == 0)) [
        | inl nothing ↦ rw nothing k
        | inr some_bytes ↦ rw some_bytes served
      ]
  step-IsCounting v fills s s3_expires k =
      unfold Session.s3_timer_expiry Security.reset_lock in ground arith
  step-IsCounting v fills s lockout_expires k = unfold Security.lockout_timer_expiry in ground arith
  step-IsCounting v fills s _ k = k

  pub restart-IsSound :
      Behaved
      → (s : Server W) (stack : Buffer) (data_len : ℕ) → IsSound s
      → let s' = restart c os app s stack data_len in
        IsSound s' × (s.security.failed_attempts_counter ≤ s'.security.failed_attempts_counter)
  unfolding restart Machine.init power_on
  restart-IsSound h s stack data_len sound =
      let w = (os.can_start s.world).0 in
      let kept =
        keep-IsPersisted c os app s.world w s.security (h.isolated.quiet.can_start s.world)
          sound.persisted in
      let (counting, persisted, more) =
        security_init-IsSound c os app h.nvs h.up h.valid w s.security sound.counting kept in
      rw (h.up.can s.world, restart, Machine.init)
        (record { counting = counting; persisted = persisted }, more)

  pub moment-IsSound :
      Behaved → (s : Server W) (m : Moment) → IsSound s → IsSound (moment c os app s m)
  unfolding moment
  moment-IsSound h s (happens e) sound = record {
    counting = step-IsCounting h.valid h.fills s e sound.counting;
    persisted = step-IsPersisted c os app h.nvs h.isolated s e sound.persisted;
  }
  moment-IsSound h s (restarts stack data_len) sound = (restart-IsSound h s stack data_len sound).0

  -- Over any life of the controller, with reboots and losses of power between any two events, the
  -- counter of failed keys stays within its limit and is at it exactly in a lockout, the seed stays
  -- a whole one, and NVS holds the counter and whether there is a lockout, if that was so at first.
  -- The configuration is valid, the entropy source fills its buffer, the platform comes up at every
  -- start, NVS keeps its laws, and the hooks leave the module's file system alone.
  pub live-IsSound :
      Behaved → (s : Server W) (life : List Moment) → IsSound s → IsSound (live c os app s life)
  unfolding live
  live-IsSound h s [] sound = sound
  live-IsSound h s (m ∷ rest) sound =
      live-IsSound h (moment c os app s m) rest (moment-IsSound h s m sound)

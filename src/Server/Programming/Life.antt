-- ===== src/Server/Programming/Life.antt =====
-- src/uds_server.c and src/uds_flash_pipeline.c: the flash over any life of the controller.
use zephyr_uds.Base.{
  ℕ, ◌≡◌, ◌≢◌, inl, inr, refl, ◌∙◌, ap, true, false, Bool-cases, List, [], ◌∷◌, Buffer, arith,
}
use mathlib.Core.Path.{fun_ext}
use zephyr_uds.Platform.{Config, Os, App}
use zephyr_uds.Security
use zephyr_uds.Security.{is_unlocked, sector_count}
use zephyr_uds.Session
use zephyr_uds.Flash.{is_idle}
use zephyr_uds.Flash.Programming
use zephyr_uds.Flash.Programming.{Act, start, Program-closed}
use zephyr_uds.Server.State.{Server}
use zephyr_uds.Server.Machine.{
  Event, Moment, happens, restarts, power_on, restart, step, moment, live,
}
use zephyr_uds.Server.Machine
use zephyr_uds.Server.Quiet.{Same}
use zephyr_uds.Server.Programming.Steps.{step-Moves}
use zephyr_uds.Server.Lock.Protection.{step-Unlocks, restart-closed, KeyInLife}
use zephyr_uds.Server.Programming.{IsTarget, device, event_act, Moves}

module _ {W : Type 0} (c : Config) (os : Os W) (app : App W) (memory : W → Buffer) where
  security_init-Same :
      IsTarget c os app memory
      → (w : W) → Same memory w (Security.init c os w (Security.power_on c)).0
  unfolding Security.init
  security_init-Same laws w i = ground (arith, laws.mount w i)

  restart-Same :
      IsTarget c os app memory
      → (s : Server W) (stack : Buffer) (data_len : ℕ)
      → Same memory s.world (restart c os app s stack data_len).world
  unfolding restart Machine.init power_on
  restart-Same laws s stack data_len i =
      let w = (os.can_start s.world).0 in
      ground (arith, security_init-Same laws w i, laws.quiet.can_start s.world i)

  restart-Moves :
      IsTarget c os app memory
      → (s : Server W) (stack : Buffer) (data_len : ℕ)
      → Moves c os app memory Programming.restart s (restart c os app s stack data_len)
  restart-Moves laws s stack data_len =
      let s' = restart c os app s stack data_len in
      let closed = restart-closed c os app s stack data_len in
      start {a = device c os app memory s} {b = device c os app memory s'}
        (fun_ext (restart-Same laws s stack data_len))
        (unfold restart Machine.init power_on in ground arith)
        (unfold restart Machine.init power_on Session.init in ground arith) (λ e. cc)

  abbrev pub moment_act : Server W → Moment → Act
  moment_act s (happens e) = event_act c os app memory s e
  moment_act s (restarts _ _) = Programming.restart

  -- Every moment of a life makes one move, and it is the move of its act.
  pub data EachMoves : Server W → List Moment → Type 0 where
    done : {s : Server W} → EachMoves s []
    also :
        {s : Server W} {m : Moment} {rest : List Moment}
        → Moves c os app memory (moment_act s m) s (moment c os app s m)
        → EachMoves (moment c os app s m) rest
        → EachMoves s (m ∷ rest)

  -- Over any life of the controller, from an idle pipeline without access: if any byte of the flash
  -- is another in the end, then some message in the life brought, after a seed request, a key that
  -- the application's verifier accepts. The hooks of a download write the flash as they are told,
  -- and all other hooks, the entropy source and the module's own storage leave it alone.
  pub flash_needs_key :
      IsTarget c os app memory
      → (s : Server W) (life : List Moment) → is_idle s.flash.pipeline_state ≡ true
      → is_unlocked s.security.status ≡ false
      → (i : ℕ) → memory (live c os app s life).world i ≢ memory s.world i
      → KeyInLife c os app s life
  unfolding live moment
  flash_needs_key laws s [] free closed i changed = absurd (changed refl)
  flash_needs_key laws s (happens e ∷ rest) free closed i changed =
      let s' = (step c os app s e).0 in
      let (kept, free') =
        Program-closed (event_act c os app memory s e) (device c os app memory s)
          (device c os app memory s') (step-Moves c os app memory laws s e) free (λ h. cc) in
      elim (Bool-cases (is_unlocked s'.security.status)) [
        | inl now ↦ inl (step-Unlocks c os app s e closed now)
        | inr not_yet ↦
            inr
              (flash_needs_key laws s' rest free' not_yet i (λ h. changed (h ∙ ap (λ m. m i) kept)))
      ]
  flash_needs_key laws s (restarts stack data_len ∷ rest) free closed i changed =
      let s' = restart c os app s stack data_len in
      let (kept, free') =
        Program-closed Programming.restart (device c os app memory s) (device c os app memory s')
          (restart-Moves laws s stack data_len) free (λ h. cc) in
      flash_needs_key laws s' rest free' (restart-closed c os app s stack data_len) i
        (λ h. changed (h ∙ ap (λ m. m i) kept))

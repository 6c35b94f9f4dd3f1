-- ===== src/Server/Startup.antt =====
-- src/uds_weak_defaults.c within src/uds_server.c: an application that leaves every hook weak.
use zephyr_uds.Base.{ℕ, ◌≡◌, ◌==◌, Bool-cases, true, false, List, [], ◌∷◌, inl, inr, Buffer, arith}
use zephyr_uds.Types.{physical, functional}
use zephyr_uds.Platform.{Config, Os}
use zephyr_uds.Platform.WeakDefaults.{weak_defaults}
use zephyr_uds.Security.{is_unlocked}
use zephyr_uds.Flash.{is_idle}
use zephyr_uds.Server.State.{Server}
use zephyr_uds.Server.Machine.{Event, received, Moment, happens, restarts, moment, live}
use zephyr_uds.Server.Lock.Protection.{Unlocks, KeyInLife, unlock_needs_key}
use zephyr_uds.Server.Programming.{IsTarget}
use zephyr_uds.Server.Programming.Life.{flash_needs_key}

module _ {W : Type 0} (c : Config) (os : Os W) where
  never_Unlocks : (s : Server W) (e : Event) → Unlocks c os (weak_defaults W) s e → ⊥
  unfolding weak_defaults
  never_Unlocks s (received physical bytes) k = ground (arith, k.verified)
  never_Unlocks s (received functional bytes) k = k
  never_Unlocks s _ k = absurd k

  never : (s : Server W) (life : List Moment) → KeyInLife c os (weak_defaults W) s life → ⊥
  never s [] h = h
  never s (happens e ∷ rest) (inl k) = never_Unlocks s e k
  never s (happens e ∷ rest) (inr k) = never (moment c os (weak_defaults W) s (happens e)) rest k
  never s (restarts stack data_len ∷ rest) k =
      never (moment c os (weak_defaults W) s (restarts stack data_len)) rest k

  -- A controller whose application leaves every hook to the weak defaults, from an idle pipeline
  -- without access: over any life of it, access is never unlocked, and every byte of the flash
  -- stays. The entropy source, the start of the CAN controller and the module's own storage leave
  -- that flash alone.
  pub weak_defaults_stay_locked :
      (memory : W → Buffer)
      → IsTarget c os (weak_defaults W) memory
      → (s : Server W) (life : List Moment) → is_idle s.flash.pipeline_state ≡ true
      → is_unlocked s.security.status ≡ false
      → let s' = live c os (weak_defaults W) s life in
        (is_unlocked s'.security.status ≡ false) × ((i : ℕ) → memory s'.world i ≡ memory s.world i)
  weak_defaults_stay_locked memory laws s life free closed =
      let s' = live c os (weak_defaults W) s life in
      (
        elim (Bool-cases (is_unlocked s'.security.status)) [
          | inl opened ↦
              absurd (never s life (unlock_needs_key c os (weak_defaults W) s life closed opened))
          | inr still ↦ still
        ],
        λ i. elim (Bool-cases (memory s'.world i == memory s.world i)) [
          | inl same ↦ ground arith
          | inr other ↦ absurd (
              never s life (
                flash_needs_key c os (weak_defaults W) memory laws s life free closed i
                  (λ e. ground arith)))
        ],
      )

-- ===== src/IoControl/Accepted.antt =====
-- src/uds_iocontrol.c: when an input or output is controlled.
use zephyr_uds.Base.{
  ℕ, ◌+◌, ◌-◌, ◌≤◌, ◌≡◌, ◌↔◌, ◌&&◌, if◌then◌else◌, leb, Option, [], ◌∷◌, u8, be16, Buffer, slice,
  arith,
}
use zephyr_uds.Types.{SessionType, extended_session, SecurityStatus, unlocked, Ret, success, send}
use zephyr_uds.Platform.{App, stored}
use zephyr_uds.Security.{is_unlocked}
use zephyr_uds.WriteDid.{is_extended}
use zephyr_uds.IoControl.{answer, handle}

module _ {W : Type 0} (app : App W) where
  -- What a request to control needs before the application is asked: the identifier and the
  -- parameter are four bytes with the service.
  pub record ControlAllowed (session : SessionType) (security : SecurityStatus) (len : ℕ)
      : Type 0 where
    pub in_session : session ≡ extended_session
    pub access : security ≡ unlocked
    pub whole : 4 ≤ len

  -- The application's hook on the request: the identifier, the parameter and the bytes behind them.
  abbrev pub control : W → Buffer → ℕ → W × Ret × Option ℕ
  control w req len = app.io_control w (be16 (req 1) (req 2)) (req 3) (slice 4 (len - 4) req)

  -- A request to control an input or output gets the positive response, which repeats the
  -- identifier and the parameter and ends with the status that the application stored, or 0 where
  -- it stored none, exactly when the session is the extended one, access is unlocked, the request
  -- has four bytes at least and the application accepts it. The world is as the application leaves
  -- it where the first three hold, and as it was where one of them does not: the application is not
  -- called.
  pub controlled_iff :
      (session : SessionType) (security : SecurityStatus) (w : W) (req : Buffer) (len : ℕ)
      (tx : Buffer)
      → let r = handle app session security w req len tx in
        let (w', ret, status) = control w req len in
        ((r.out ≡ send (u8 (req 0 + 0x40) ∷ req 1 ∷ req 2 ∷ req 3 ∷ stored status 0 ∷ []) ∷ [])
          ↔ (ControlAllowed session security len × (ret ≡ success)))
        × (r.world ≡ (if is_extended session && (is_unlocked security && leb 4 len) then w' else w))
  unfolding handle answer
  controlled_iff session security w req len tx = ((ground arith, ground arith), ground arith)

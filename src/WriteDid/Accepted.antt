-- ===== src/WriteDid/Accepted.antt =====
-- src/uds_write_did.c: when a value is written.
use zephyr_uds.Base.{
  ℕ, ◌+◌, ◌-◌, ◌≤◌, ◌≡◌, ◌↔◌, ◌&&◌, if◌then◌else◌, leb, [], ◌∷◌, u8, be16, Buffer, slice, arith,
}
use zephyr_uds.Types.{SessionType, extended_session, SecurityStatus, unlocked, Ret, success, send}
use zephyr_uds.Platform.{App}
use zephyr_uds.Security.{is_unlocked}
use zephyr_uds.WriteDid.{is_extended, answer, handle}

module _ {W : Type 0} (app : App W) where
  -- What a request to write needs before the application is asked.
  pub record WriteAllowed (session : SessionType) (security : SecurityStatus) (len : ℕ)
      : Type 0 where
    pub in_session : session ≡ extended_session
    pub access : security ≡ unlocked
    pub whole : 3 ≤ len

  -- The application's hook on the request.
  abbrev pub write : W → Buffer → ℕ → W × Ret
  write w req len = app.write_did w (be16 (req 1) (req 2)) (slice 3 (len - 3) req)

  -- A request to write gets the positive response, which repeats the identifier, exactly when the
  -- session is the extended one, access is unlocked, the request has three bytes at least and the
  -- application takes the bytes behind them. The world is as the application leaves it where the
  -- first three hold, and as it was where one of them does not: the application is not called.
  pub written_iff :
      (session : SessionType) (security : SecurityStatus) (w : W) (req : Buffer) (len : ℕ)
      (tx : Buffer)
      → let r = handle app session security w req len tx in
        ((r.out ≡ send (u8 (req 0 + 0x40) ∷ req 1 ∷ req 2 ∷ []) ∷ [])
          ↔ (WriteAllowed session security len × ((write w req len).1 ≡ success)))
        × (r.world ≡ (
            if is_extended session && (is_unlocked security && leb 3 len)
            then (write w req len).0
            else w))
  unfolding handle answer
  written_iff session security w req len tx = ((ground arith, ground arith), ground arith)

-- ===== src/Server/Guards.antt =====
-- The guards of the services, at the level of the server.
use zephyr_uds.Base.{
  ℕ, ◌≤◌, ◌≡◌, Bool, true, false, not, ◌&&◌, ◌||◌, List, [], ◌∷◌, ◌==◌, Buffer, arith,
}
use zephyr_uds.Types.{Addressing, physical, functional, Out, nrc}
use zephyr_uds.Platform.{Config, Os, App}
use zephyr_uds.Security.{is_unlocked}
use zephyr_uds.Flash
use zephyr_uds.Flash.{is_default}
use zephyr_uds.Routine
use zephyr_uds.WriteDid
use zephyr_uds.WriteDid.{is_extended}
use zephyr_uds.IoControl
use zephyr_uds.Server.State.{Server}
use zephyr_uds.Server.Services
use zephyr_uds.Server.Process.{
  Service, write_did, io_control, request_download, routine_control, serve,
}

module _ {W : Type 0} where
  -- What session and security a service needs, in the words of the specification: writing and
  -- actuators the extended session and access, a download a session other than the default one
  -- and access, a routine such a session.
  abbrev pub permitted : Service → Server W → Bool
  permitted write_did s = is_extended s.session && is_unlocked s.security.status
  permitted io_control s = is_extended s.session && is_unlocked s.security.status
  permitted request_download s = not (is_default s.session) && is_unlocked s.security.status
  permitted routine_control s = not (is_default s.session)
  permitted _ s = true

-- One negative response to the request, with one of the codes for a guard or a length.
abbrev pub refused_by_guard : ℕ → List Out → Bool
refused_by_guard sid (nrc s code ∷ []) =
    s == sid && (code == 0x7E || code == 0x33 || code == 0x13 || code == 0x22)
refused_by_guard sid _ = false

module _ {W : Type 0} (c : Config) (os : Os W) (app : App W) where
  -- A service that session and security do not permit is refused with one negative response, and
  -- leaves the whole server as it was: no state of any component, no transmission buffer, and no
  -- call of the application, whose world is the same.
  pub not_permitted_refused :
      (v : Service) (a : Addressing) (s : Server W) (req : Buffer) (len : ℕ)
      → 1 ≤ len
      → permitted v s ≡ false
      → ((serve c os app v a s req len).0 ≡ s)
        × (refused_by_guard (req 0) (serve c os app v a s req len).1 ≡ true)
  unfolding serve Services.write_did Services.io_control Services.request_download
      Services.routine_control WriteDid.handle IoControl.handle Flash.request_download
      Routine.handle_control
  not_permitted_refused write_did a s req len h p = (ground arith, ground arith)
  not_permitted_refused io_control physical s req len h p = (ground arith, ground arith)
  not_permitted_refused io_control functional s req len h p = (ground arith, ground arith)
  not_permitted_refused request_download physical s req len h p = (ground arith, ground arith)
  not_permitted_refused request_download functional s req len h p = (ground arith, ground arith)
  not_permitted_refused routine_control a s req len h p = (ground arith, ground arith)
  not_permitted_refused _ a s req len h p = (ground arith, ground arith)

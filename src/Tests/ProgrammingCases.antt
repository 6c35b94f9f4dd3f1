-- ===== src/Tests/ProgrammingCases.antt =====
-- A life in which the flash is programmed, at concrete inputs.
use zephyr_uds.Base.{ℕ, true, false, ◌≡◌, ◌≢◌, refl, List, [], ◌∷◌, arith}
use zephyr_uds.Types.{physical}
use zephyr_uds.Platform.{default_config}
use zephyr_uds.Security
use zephyr_uds.Session
use zephyr_uds.Flash
use zephyr_uds.Server.Services
use zephyr_uds.Server.Process.{serve, service, process_request}
use zephyr_uds.Server.Machine
use zephyr_uds.Server.Machine.{
  Moment, happens, restarts, received, power_on, step, receive, restart, moment, live,
}
use zephyr_uds.Server.Programming.Life.{flash_needs_key}
use zephyr_uds.Server.Programming.Acknowledged.{image_of, flash_holds_acknowledged}
use zephyr_uds.Flash.{is_idle}
use zephyr_uds.Server.State.{perform, perform_all, send_nrc}
use zephyr_uds.Server.State.{Server}
use zephyr_uds.Base.{◌+◌, ◌^◌, ◌<◌, slice, some}
use zephyr_uds.Server.Lock.Protection.{KeyInLife, unlock_needs_key}
use zephyr_uds.Server.Startup.{weak_defaults_stay_locked}
use zephyr_uds.Platform.WeakDefaults.{weak_defaults}
use zephyr_uds.Security.{is_unlocked}
use zephyr_uds.Tests.Bench.{World, zeros, bench_os, bench_app}
use zephyr_uds.Tests.ServerBench.{fresh}
use zephyr_uds.Tests.TargetBench.{flash_of, bench_target, weak_target}

-- The programming session, a key, a download of four bytes at 0x20, a block of two, and a reboot.
abbrev programming_life : List Moment
programming_life =
    happens (received physical (0x10 ∷ 0x02 ∷ []))
    ∷ happens (received physical (0x27 ∷ 0x01 ∷ []))
    ∷ happens (received physical (0x27 ∷ 0x02 ∷ 9 ∷ 1 ∷ 2 ∷ 3 ∷ []))
    ∷ happens (received physical (0x34 ∷ 0x00 ∷ 0x11 ∷ 0x20 ∷ 0x04 ∷ []))
    ∷ happens (received physical (0x36 ∷ 1 ∷ 5 ∷ 6 ∷ []))
    ∷ restarts zeros 0
    ∷ []

-- A reboot, and then the programming session and a key.
abbrev unlocking_life : List Moment
unlocking_life =
    restarts zeros 0
    ∷ happens (received physical (0x10 ∷ 0x02 ∷ []))
    ∷ happens (received physical (0x27 ∷ 0x01 ∷ []))
    ∷ happens (received physical (0x27 ∷ 0x02 ∷ 9 ∷ 1 ∷ 2 ∷ 3 ∷ []))
    ∷ []

programmed : (live default_config bench_os bench_app fresh programming_life).world.memory 0x20 ≡ 5
unfolding live moment restart step receive process_request serve service Services.session_control
    Services.session_of_byte Services.security_access Services.request_download
    Services.transfer_data Flash.request_download Flash.start_download Flash.read_field
    Flash.transfer_data Security.handle_request Security.request_seed Security.generate_seed
    Security.send_key Security.local_key Security.grant Security.count_failure Security.reset_lock
    Session.set Machine.init Security.init Security.restore power_on Security.power_on
programmed = refl

changed : (live default_config bench_os bench_app fresh programming_life).world.memory 0x20 ≢ 0
changed h = omega (arith, programmed, h)

flash_needs_key_example : KeyInLife default_config bench_os bench_app fresh programming_life
unfolding power_on Flash.init Security.power_on
flash_needs_key_example =
    flash_needs_key default_config bench_os bench_app flash_of bench_target fresh programming_life
      refl refl 0x20 changed

unlocked_after :
    is_unlocked (live default_config bench_os bench_app fresh unlocking_life).security.status ≡ true
unfolding live moment restart step receive process_request serve service Services.session_control
    Services.session_of_byte Services.security_access Security.handle_request Security.request_seed
    Security.generate_seed Security.send_key Security.local_key Security.grant Security.reset_lock
    Session.set Machine.init Security.init Security.restore power_on Security.power_on
unlocked_after = refl

unlock_needs_key_example : KeyInLife default_config bench_os bench_app fresh unlocking_life
unfolding power_on Security.power_on
unlock_needs_key_example =
    unlock_needs_key default_config bench_os bench_app fresh unlocking_life refl unlocked_after

weak_defaults_stay_locked_example :
    let s' = live default_config bench_os (weak_defaults World) fresh programming_life in
    (is_unlocked s'.security.status ≡ false) × ((i : ℕ) → s'.world.memory i ≡ 0)
unfolding power_on Flash.init Security.power_on
weak_defaults_stay_locked_example =
    weak_defaults_stay_locked default_config bench_os flash_of weak_target fresh programming_life
      refl refl

-- The programming session, a key, a download, a block, a refused block with a wrong counter, and a
-- second block.
abbrev transferring_life : List Moment
transferring_life =
    happens (received physical (0x10 ∷ 0x02 ∷ []))
    ∷ happens (received physical (0x27 ∷ 0x01 ∷ []))
    ∷ happens (received physical (0x27 ∷ 0x02 ∷ 9 ∷ 1 ∷ 2 ∷ 3 ∷ []))
    ∷ happens (received physical (0x34 ∷ 0x00 ∷ 0x11 ∷ 0x20 ∷ 0x04 ∷ []))
    ∷ happens (received physical (0x36 ∷ 1 ∷ 5 ∷ 6 ∷ []))
    ∷ happens (received physical (0x36 ∷ 7 ∷ 8 ∷ []))
    ∷ happens (received physical (0x36 ∷ 2 ∷ 9 ∷ []))
    ∷ []

abbrev transferred : Server World
transferred = live default_config bench_os bench_app fresh transferring_life

transferred-image :
    image_of default_config bench_os bench_app flash_of (some []) fresh transferring_life
    ≡ some (5 ∷ 6 ∷ 9 ∷ [])
unfolding image_of live moment step receive process_request serve service Services.session_control
    Services.session_of_byte Services.security_access Services.request_download
    Services.transfer_data Flash.request_download Flash.start_download Flash.read_field
    Flash.transfer_data Security.handle_request Security.request_seed Security.generate_seed
    Security.send_key Security.local_key Security.grant Security.reset_lock Session.set
    Session.refresh_timer perform_all perform send_nrc power_on Security.power_on Flash.init
transferred-image = refl

transferred-busy : is_idle transferred.flash.pipeline_state ≡ false
unfolding image_of live moment step receive process_request serve service Services.session_control
    Services.session_of_byte Services.security_access Services.request_download
    Services.transfer_data Flash.request_download Flash.start_download Flash.read_field
    Flash.transfer_data Security.handle_request Security.request_seed Security.generate_seed
    Security.send_key Security.local_key Security.grant Security.reset_lock Session.set
    Session.refresh_timer perform_all perform send_nrc power_on Security.power_on Flash.init
transferred-busy = refl

transferred-fits : transferred.flash.memory_address + 3 < 2 ^ 32
unfolding image_of live moment step receive process_request serve service Services.session_control
    Services.session_of_byte Services.security_access Services.request_download
    Services.transfer_data Flash.request_download Flash.start_download Flash.read_field
    Flash.transfer_data Security.handle_request Security.request_seed Security.generate_seed
    Security.send_key Security.local_key Security.grant Security.reset_lock Session.set
    Session.refresh_timer perform_all perform send_nrc power_on Security.power_on Flash.init
transferred-fits = omega arith

flash_holds_acknowledged_example :
    (transferred.flash.bytes_received ≡ 3)
    × (slice transferred.flash.memory_address 3 transferred.world.memory ≡ 5 ∷ 6 ∷ 9 ∷ [])
unfolding power_on Flash.init
flash_holds_acknowledged_example =
    flash_holds_acknowledged default_config bench_os bench_app flash_of bench_target fresh
      transferring_life (5 ∷ 6 ∷ 9 ∷ []) refl transferred-image transferred-busy transferred-fits

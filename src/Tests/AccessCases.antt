-- ===== src/Tests/AccessCases.antt =====
-- Sessions, access and timeouts of the whole server at concrete inputs.
use zephyr_uds.Base.{◌≡◌, refl, true, false, not, [], ◌∷◌, arith}
use zephyr_uds.Types.{locked, default_session, physical, send}
use zephyr_uds.Platform.{default_config}
use zephyr_uds.Session
use zephyr_uds.Server.Services
use zephyr_uds.Flash.{is_default}
use zephyr_uds.Server.Services.{read_did, tester_present}
use zephyr_uds.Server.Process.{write_did, transfer_data, serve}
use zephyr_uds.Server.Machine.{received, s3_expires, power_on, step}
use zephyr_uds.Server.Supervision.{supervise, s3_supervised}
use zephyr_uds.Server.Guards.{refused_by_guard, not_permitted_refused}
use zephyr_uds.Server.Timeout.{transfer_survives_timeout}
use zephyr_uds.Tests.Bench.{blank, bench_os, bench_app}
use zephyr_uds.Tests.ServerBench.{
  fresh, transferring_server, unlocked_server, write_message, block_message,
}

s3_supervised_example :
    let (b, s) =
      supervise default_config bench_os bench_app false fresh
        (received physical (0x10 ∷ 0x03 ∷ []) ∷ s3_expires ∷ []) in
    b ≡ not (is_default s.session)
unfolding power_on
s3_supervised_example =
    s3_supervised default_config bench_os bench_app false fresh
      (received physical (0x10 ∷ 0x03 ∷ []) ∷ s3_expires ∷ []) refl

not_permitted_refused_example :
    ((serve default_config bench_os bench_app write_did physical unlocked_server write_message 4).0
      ≡ unlocked_server)
    × (refused_by_guard 0x2E
          (serve default_config bench_os bench_app write_did physical unlocked_server write_message
            4).1
        ≡ true)
unfolding power_on
not_permitted_refused_example =
    not_permitted_refused default_config bench_os bench_app write_did physical unlocked_server
      write_message 4 (omega arith) refl

transfer_survives_timeout_example :
    let s = (step default_config bench_os bench_app transferring_server s3_expires).0 in
    let wrote = bench_app.flash_write_block blank 34 (5 ∷ 6 ∷ []) in
    let (s', calls) =
      serve default_config bench_os bench_app transfer_data physical s block_message 4 in
    (s'.session ≡ default_session)
    × (s'.security.status ≡ locked)
    × (s'.world ≡ wrote.0)
    × (calls ≡ send (0x76 ∷ 2 ∷ []) ∷ [])
unfolding serve step power_on Services.transfer_data Session.s3_timer_expiry
transfer_survives_timeout_example =
    transfer_survives_timeout default_config bench_os bench_app transferring_server block_message 4
      (ground arith) (ground arith) refl (omega arith) refl refl

-- ===== src/Tests/FlashCases.antt =====
-- Downloads at concrete inputs.
use mathlib.Core.List.{flatten}
use zephyr_uds.Base.{
  ◌+◌, ◌≡◌, ◌↔◌, refl, [], ◌∷◌, u8, u32, ◌/◌, Buffer, holding, copy, slice, arith,
}
use zephyr_uds.Base.{ℕ, List, ◌++◌}
use zephyr_uds.Types.{physical}
use zephyr_uds.Server.Machine.{received, run, power_on}
use zephyr_uds.Server.Flashing.{blocks, answered}
use zephyr_uds.Server.Flashing.Download.{request_in, tester_programs}
use zephyr_uds.Tests.Bench.{bench_os}
use zephyr_uds.Tests.ServerBench.{unlocked_server}
use zephyr_uds.Types.{programming_session, unlocked, success, failure, eio, send, nrc}
use zephyr_uds.Types.Nrc
use zephyr_uds.Platform.{App, default_config}
use zephyr_uds.Flash.{Flash, idle, transferring, init, read_field, request_download, transfer_data}
use zephyr_uds.Flash.Gate.{DownloadAllowed, download_address, download_size, download_accepted_iff}
use zephyr_uds.Flash.Stream.{Writable, acknowledgements}
use zephyr_uds.Flash.Download.{refused_download_redirects}
use zephyr_uds.Tests.Bench.{World, blank, bench_app, zeros}

-- One byte of address and one of size: 4 bytes at 0x20.
abbrev small_download : Buffer
small_download = holding (0x34 ∷ 0x00 ∷ 0x11 ∷ 0x20 ∷ 0x04 ∷ [])

abbrev under_way : Flash
under_way = record {
  pipeline_state = transferring;
  memory_address = 0x20;
  memory_size = 8;
  bytes_received = 2;
  expected_block_counter = 255;
}

abbrev no_erase : App World
no_erase = record bench_app { flash_erase_target = λ w address size. (w, failure eio) }

small_download-DownloadAllowed :
    DownloadAllowed default_config bench_app programming_session unlocked small_download 5
small_download-DownloadAllowed = record {
  in_session = ground arith;
  access = refl;
  not_short = omega arith;
  whole = refl;
}

small_download-DownloadAllowed-no_erase :
    DownloadAllowed default_config no_erase programming_session unlocked small_download 5
small_download-DownloadAllowed-no_erase = record {
  in_session = ground arith;
  access = refl;
  not_short = omega arith;
  whole = refl;
}

download_accepted_iff_example :
    let (f, r) =
      request_download default_config bench_app programming_session unlocked blank init
        small_download 5 zeros in
    (r.out
      ≡ send (
          u8 (small_download 0 + 0x40)
          ∷ 0x20
          ∷ u8 (default_config.buff_size / 256)
          ∷ u8 default_config.buff_size
          ∷ [])
        ∷ [])
    ↔ (DownloadAllowed default_config bench_app programming_session unlocked small_download 5
        × ((bench_app.flash_erase_target blank
              (download_address default_config bench_app small_download)
              (download_size default_config bench_app small_download)).1
            ≡ success))
download_accepted_iff_example =
    download_accepted_iff default_config bench_app programming_session unlocked blank init
      small_download 5 zeros

bench_app-Writable : Writable bench_app (λ w. w.memory) 0 65536
bench_app-Writable = record { writes = λ w offset payload low high. (refl, refl) }

-- A download by messages, in the programming session with access.
abbrev download_body : List ℕ
download_body = 0x00 ∷ 0x11 ∷ 0x20 ∷ 0x04 ∷ []

abbrev two_blocks : List (List ℕ)
two_blocks = (1 ∷ 2 ∷ []) ∷ (3 ∷ 4 ∷ []) ∷ []

unlocked_server-DownloadAllowed :
    DownloadAllowed default_config bench_app unlocked_server.session unlocked_server.security.status
      (request_in default_config bench_os bench_app unlocked_server (0x34 ∷ download_body))
      5
unfolding power_on
unlocked_server-DownloadAllowed = record {
  in_session = ground arith;
  access = refl;
  not_short = omega arith;
  whole = refl;
}

tester_programs_example :
    let (s', calls) = run default_config bench_os bench_app unlocked_server (
      received physical (0x34 ∷ download_body)
      ∷ (blocks 1 two_blocks ++ received physical (0x37 ∷ []) ∷ [])) in
    (s'.world.memory
      ≡ copy blank.memory
          (download_address default_config bench_app
            (request_in default_config bench_os bench_app unlocked_server (0x34 ∷ download_body)))
          (flatten two_blocks))
    × (s'.flash.pipeline_state ≡ idle)
    × (s'.session ≡ unlocked_server.session)
    × (s'.security ≡ unlocked_server.security)
    × (calls
        ≡ answered default_config (
            send (0x74 ∷ 0x20 ∷ 15 ∷ 255 ∷ [])
            ∷ (acknowledgements 1 two_blocks ++ send (0x77 ∷ []) ∷ [])))
unfolding power_on
tester_programs_example =
    tester_programs default_config bench_os bench_app (λ w. w.memory) 0 65536 bench_app-Writable
      (omega arith) unlocked_server download_body (1 ∷ 2 ∷ []) ((3 ∷ 4 ∷ []) ∷ [])
      unlocked_server-DownloadAllowed refl (omega arith, (omega arith, tt))
      (unfold read_field in omega arith) (unfold flatten read_field in omega arith)

refused_download_redirects_example :
    let (f, r) =
      request_download default_config no_erase programming_session unlocked blank under_way
        small_download 5 zeros in
    let (f', r') = transfer_data no_erase r.world f (holding (0x36 ∷ 255 ∷ 7 ∷ [])) 3 zeros in
    (r.out ≡ nrc 0x34 Nrc.upload_download_not_accepted ∷ [])
    × (f.pipeline_state ≡ transferring)
    × (r'.world
        ≡ (no_erase.flash_write_block r.world
            (u32 (download_address default_config no_erase small_download + 2))
            (slice 2 1 (holding (0x36 ∷ 255 ∷ 7 ∷ [])))).0)
refused_download_redirects_example =
    refused_download_redirects default_config no_erase programming_session unlocked blank under_way
      small_download 5 zeros eio (holding (0x36 ∷ 255 ∷ 7 ∷ [])) 3
      small_download-DownloadAllowed-no_erase refl refl (omega arith) refl

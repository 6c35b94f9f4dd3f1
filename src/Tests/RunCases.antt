-- ===== src/Tests/RunCases.antt =====
-- The bounds of the statics and of the frames, at concrete inputs.
use zephyr_uds.Base.{ℕ, ◌≡◌, ◌≤◌, leb, refl, true, some, List, [], ◌∷◌, if◌then◌else◌, arith}
use zephyr_uds.Types.{physical, success}
use zephyr_uds.Platform.{default_config, App, Reading, stored}
use zephyr_uds.Flash
use zephyr_uds.Periodic
use zephyr_uds.ClearDtc
use zephyr_uds.DynamicDid
use zephyr_uds.Server.Machine.{
  received, periodic_runs, clear_dtc_runs, Moment, happens, restarts, power_on, run,
}
use zephyr_uds.Server.Machine.{Event}
use zephyr_uds.Tests.Bench.{bench_fills}
use zephyr_uds.Security
use zephyr_uds.Security.Guessing.{power_on-IsCounting}
use zephyr_uds.Server.Residue.{Exact}
use zephyr_uds.Server.Residue.Life.{residue_unseen}
use zephyr_uds.Server.Width.{IsWithin}
use zephyr_uds.Server.Frames.{Roomy}
use zephyr_uds.Server.Frames.Life.{life_fits, life_fits_buffers}
use zephyr_uds.Tests.Bench.{
  World, zeros, bench_os, bench_app, sample_reading, default_config-IsConfig,
}
use zephyr_uds.Tests.ServerBench.{fresh}

-- A dynamic identifier and a periodic one are defined, both are read, a clearing runs, and the
-- controller restarts.
abbrev busy_life : List Moment
busy_life =
    happens (received physical (0x2C ∷ 0x01 ∷ 0xF3 ∷ 0x01 ∷ 0x12 ∷ 0x34 ∷ 2 ∷ 255 ∷ 0 ∷ []))
    ∷ happens (received physical (0x22 ∷ 0xF3 ∷ 0x01 ∷ []))
    ∷ happens (received physical (0x2A ∷ 0x01 ∷ 0x77 ∷ []))
    ∷ happens periodic_runs
    ∷ happens (received physical (0x14 ∷ 0xFF ∷ 0xFF ∷ 0xFF ∷ []))
    ∷ happens clear_dtc_runs
    ∷ restarts zeros 0
    ∷ []

fresh-IsWithin : IsWithin fresh
unfolding power_on Flash.init Periodic.power_on DynamicDid.power_on ClearDtc.power_on
fresh-IsWithin = record {
  rx = λ i. omega arith;
  flash = ground arith;
  periodic = (omega arith, λ i. omega arith);
  dynamic = ground arith;
  clear = ground arith;
}

-- The application of the bench, which gives nothing where there is no room.
abbrev sample_in : ℕ → Reading
sample_in max_len =
    if leb 4 max_len
    then sample_reading
    else record { ret = success; written = []; len_out = some 0 }

abbrev careful_app : App World
careful_app = record bench_app {
  read_did = λ w did max_len. (w, sample_in max_len);
  get_freeze_frame = λ w dtc record_num max_len. (w, sample_in max_len);
}

sample_in-fits : (max_len : ℕ) → stored (sample_in max_len).len_out 0 ≤ max_len
sample_in-fits max_len = ground arith

careful_app-Roomy : Roomy careful_app
careful_app-Roomy = record {
  read_did = λ w did max_len. sample_in-fits max_len;
  freeze_frame = λ w dtc record_num max_len. sample_in-fits max_len;
  periodic_did = λ w did before fine. omega arith;
}

life_fits_buffers_example : life_fits default_config bench_os careful_app fresh busy_life ≡ true
life_fits_buffers_example =
    life_fits_buffers default_config bench_os careful_app default_config-IsConfig careful_app-Roomy
      (omega arith) fresh busy_life refl fresh-IsWithin

careful_app-Exact : Exact careful_app
careful_app-Exact = record {
  read_did = λ w did max_len fine. ground arith;
  freeze_frame = λ w dtc record_num max_len fine. ground arith;
}

-- A seed, a dynamic identifier and two reads.
abbrev reading_events : List Event
reading_events =
    received physical (0x27 ∷ 0x01 ∷ [])
    ∷ received physical (0x2C ∷ 0x01 ∷ 0xF3 ∷ 0x01 ∷ 0x12 ∷ 0x34 ∷ 2 ∷ 255 ∷ 0 ∷ [])
    ∷ received physical (0x22 ∷ 0xF3 ∷ 0x01 ∷ [])
    ∷ received physical (0x22 ∷ 0xF1 ∷ 0x90 ∷ [])
    ∷ []

residue_unseen_example :
    (run default_config bench_os careful_app fresh reading_events).1
    ≡ (run default_config bench_os careful_app
        (record fresh { tx_buf = λ i. 0x55 })
        reading_events).1
unfolding power_on Security.power_on
residue_unseen_example =
    residue_unseen default_config bench_os careful_app default_config-IsConfig bench_fills
      careful_app-Exact fresh (λ i. 0x55) reading_events refl fresh-IsWithin
      (power_on-IsCounting default_config default_config-IsConfig)

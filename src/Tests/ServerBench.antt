-- ===== src/Tests/ServerBench.antt =====
-- Servers and messages on the bench.
use zephyr_uds.Base.{List, [], ◌∷◌, Buffer, holding, replicate}
use zephyr_uds.Types.{unlocked, programming_session, physical}
use zephyr_uds.Platform.{default_config}
use zephyr_uds.Security.{Security}
use zephyr_uds.Flash
use zephyr_uds.Flash.{is_default, is_idle}
use zephyr_uds.Server.State.{Server}
use zephyr_uds.Server.Machine.{Event, received, power_on}
use zephyr_uds.Tests.Bench.{World, blank, zeros}

-- The server at power-on.
abbrev pub fresh : Server World
fresh = power_on default_config blank zeros 0

-- The messages that open the programming session, unlock it and start a download.
abbrev pub unlocking : List Event
unlocking =
    received physical (0x10 ∷ 0x02 ∷ [])
    ∷ received physical (0x27 ∷ 0x01 ∷ [])
    ∷ received physical (0x27 ∷ 0x02 ∷ 9 ∷ 1 ∷ 2 ∷ 3 ∷ [])
    ∷ []

abbrev pub download : List Event
download = received physical (0x34 ∷ 0x00 ∷ 0x11 ∷ 0x20 ∷ 0x04 ∷ []) ∷ []

abbrev pub access : Security
access = record { status = unlocked; generated_seed = replicate 4 7; failed_attempts_counter = 0 }

-- A server in the programming session, unlocked, with a transfer under way.
abbrev pub transferring_server : Server World
transferring_server = record fresh {
  session = programming_session;
  security = access;
  flash = record {
    pipeline_state = Flash.transferring;
    memory_address = 0x20;
    memory_size = 8;
    bytes_received = 2;
    expected_block_counter = 2;
  };
}

abbrev pub unlocked_server : Server World
unlocked_server = record fresh { session = programming_session; security = access }

abbrev pub did_message : Buffer
did_message = holding (0x22 ∷ 0xF1 ∷ 0x90 ∷ [])

abbrev pub write_message : Buffer
write_message = holding (0x2E ∷ 0xF1 ∷ 0x90 ∷ 1 ∷ [])

abbrev pub seed_message : Buffer
seed_message = holding (0x27 ∷ 0x01 ∷ [])

abbrev pub block_message : Buffer
block_message = holding (0x36 ∷ 2 ∷ 5 ∷ 6 ∷ [])

abbrev pub define_message : Buffer
define_message = holding (0x2C ∷ 0x01 ∷ 0xF3 ∷ 0x01 ∷ 0x12 ∷ 0x34 ∷ 2 ∷ 2 ∷ 0 ∷ [])

abbrev pub read_message : Buffer
read_message = holding (0x22 ∷ 0xF3 ∷ 0x01 ∷ [])

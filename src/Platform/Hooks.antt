-- ===== src/Platform/Hooks.antt =====
-- What the program calls and does not implement: Zephyr and the application. The hooks of
-- include/zephyr/canbus/uds_app_interface.h are the record `App`; `Os` holds the drivers and the
-- kernel's queries; `Config` the numbers of src/Kconfig.uds. All of them see and change a world
-- `W`, of which the program knows nothing else.
use zephyr_uds.Base.{ℕ, ◌≤◌, Bool, true, false, Option, none, some, List, [], ◌∷◌, Buffer, get_or}
use zephyr_uds.Types.{Errno, Ret, success, failure, Work, Out, nrc}

pub record Config : Type 0 where
  pub buff_size : ℕ
  pub can_rx_id : ℕ
  pub can_func_rx_id : ℕ
  pub can_tx_id : ℕ
  pub s3_timeout_ms : ℕ
  pub max_failed_attempts : ℕ
  pub lockout_time_ms : ℕ
  pub seed_size : ℕ

-- The ranges that Kconfig enforces.
pub record IsConfig (c : Config) : Type 0 where
  pub buff_min : 64 ≤ c.buff_size
  pub buff_max : c.buff_size ≤ 4095
  pub s3_min : 1000 ≤ c.s3_timeout_ms
  pub s3_max : c.s3_timeout_ms ≤ 10000
  pub lockout_min : 1000 ≤ c.lockout_time_ms
  pub lockout_max : c.lockout_time_ms ≤ 600000
  pub attempts_min : 1 ≤ c.max_failed_attempts
  pub attempts_max : c.max_failed_attempts ≤ 10
  pub seed_min : 4 ≤ c.seed_size
  pub seed_max : c.seed_size ≤ 32

-- The defaults of Kconfig.
abbrev pub default_config : Config
default_config = record {
  buff_size = 4095;
  can_rx_id = 0x7E0;
  can_func_rx_id = 0x7DF;
  can_tx_id = 0x7E8;
  s3_timeout_ms = 5000;
  max_failed_attempts = 3;
  lockout_time_ms = 10000;
  seed_size = 4;
}

-- A mounted file system: the security module's own, or one that the application hands out.
pub data Fs : Type 0 where
  security_fs : Fs
  app_fs : ℕ → Fs

-- nvs_read: the length of the stored item, which is the value returned, and the bytes copied; or
-- an error, with the caller's buffer as it was.
pub data NvsRead : Type 0 where
  item : ℕ → List ℕ → NvsRead
  read_failed : Errno → NvsRead

pub record Os (W : Type 0) : Type 0 where
  -- device_is_ready of the CAN controller, the entropy source, the flash of storage_partition
  pub can_ready : W → Bool
  pub entropy_ready : W → Bool
  pub storage_ready : W → Bool
  pub can_start : W → W × Ret
  -- entropy_get_entropy: `none` is an error, with the buffer as it was.
  pub get_entropy : W → ℕ → W × Option (List ℕ)
  pub uptime_32 : W → ℕ
  -- flash_get_page_info_by_offs at the partition's start: the page's size
  pub page_size : W → Option ℕ
  pub partition_size : ℕ
  pub nvs_mount : W → W × Ret
  pub nvs_read : W → Fs → ℕ → ℕ → NvsRead
  -- The code ignores what nvs_write returns.
  pub nvs_write : W → Fs → ℕ → List ℕ → W
  pub work_is_pending : W → Work → Bool
  -- What the memory of a local array, and that around it, holds before the function writes it.
  pub stack : W → Buffer

-- A hook that fills a buffer: its return value, the bytes that it wrote, and `*len_out` if it
-- stored a length.
pub record Reading : Type 0 where
  pub ret : Ret
  pub written : List ℕ
  pub len_out : Option ℕ

-- A pointer parameter `uint8_t *x_out` is an `Option ℕ`, the value if the hook stored one.
pub record App (W : Type 0) : Type 0 where
  -- did, max_len
  pub read_did : W → ℕ → ℕ → W × Reading
  -- did, data_in
  pub write_did : W → ℕ → List ℕ → W × Ret
  -- did, control_param, control_state; status_out
  pub io_control : W → ℕ → ℕ → List ℕ → W × Ret × Option ℕ
  -- routine_id; info_out
  pub routine_start : W → ℕ → W × Ret × Option ℕ
  -- routine_id; status_out, exit_info_out
  pub routine_request_results : W → ℕ → W × Ret × Option ℕ × Option ℕ
  -- address, size
  pub flash_erase_target : W → ℕ → ℕ → W × Ret
  -- address_offset, data
  pub flash_write_block : W → ℕ → List ℕ → W × Ret
  -- dtc, record_num, max_len
  pub get_freeze_frame : W → ℕ → ℕ → ℕ → W × Reading
  -- security_level, seed, received_key
  pub verify_key_krypto : W → ℕ → List ℕ → List ℕ → W × Ret
  -- periodic_did
  pub get_periodic_did : W → ℕ → W × Reading
  pub get_nvs_context : W → Option Fs
  -- fs, dtc_group
  pub clear_persistent_dtcs : W → Fs → ℕ → W × Ret
  -- fs, nvs_id, data
  pub write_persistent_data : W → Fs → ℕ → List ℕ → W × Ret

-- `*x_out` after the hook, where it held `before`.
abbrev pub stored : Option ℕ → ℕ → ℕ
stored none before = before
stored (some x) before = x

-- `ret == 0`
abbrev pub ok : Ret → Bool
ok success = true
ok (failure e) = false

-- What a handler that fills the shared transmission buffer leaves behind, and what it called.
pub record Reply (W : Type 0) : Type 0 where
  pub world : W
  pub tx_buf : Buffer
  pub out : List Out

-- `ret` of nvs_read as far as the code reads it: an error is not above 0.
abbrev pub returned : NvsRead → ℕ
returned (item n bytes) = n
returned (read_failed e) = 0

-- A byte variable after a read of one byte, where it held `before`.
abbrev pub read_byte : NvsRead → ℕ → ℕ
read_byte (item n bytes) before = get_or bytes 0 before
read_byte (read_failed e) before = before

-- The reply of a handler that only calls `nrc_cb(sid, code)`.
abbrev pub refuse : {W : Type 0} → W → Buffer → ℕ → ℕ → Reply W
refuse w tx sid code = record { world = w; tx_buf = tx; out = nrc sid code ∷ [] }

-- ===== src/Platform/WeakDefaults.antt =====
-- src/uds_weak_defaults.c: the hooks that the linker takes where the application gives none.
use zephyr_uds.Base.{ℕ, none, List, []}
use zephyr_uds.Types.{Errno, failure, enoent, eacces, eopnotsupp}
use zephyr_uds.Platform.Hooks.{App, Reading}

nothing : Errno → Reading
nothing e = record { ret = failure e; written = []; len_out = none }

-- The weak hooks leave every output parameter alone.
unfoldable pub weak_defaults : (W : Type 0) → App W
unfolding nothing
weak_defaults W = record {
  read_did = λ w did max_len. (w, nothing enoent);
  write_did = λ w did data_in. (w, failure eacces);
  io_control = λ w did control_param control_state. (w, failure enoent, none);
  routine_start = λ w routine_id. (w, failure enoent, none);
  routine_request_results = λ w routine_id. (w, failure enoent, none, none);
  flash_erase_target = λ w address size. (w, failure eopnotsupp);
  flash_write_block = λ w address_offset bytes. (w, failure eopnotsupp);
  get_freeze_frame = λ w dtc record_num max_len. (w, nothing enoent);
  verify_key_krypto = λ w security_level seed received_key. (w, failure eacces);
  get_periodic_did = λ w periodic_did. (w, nothing enoent);
  get_nvs_context = λ w. none;
  clear_persistent_dtcs = λ w fs dtc_group. (w, failure eopnotsupp);
  write_persistent_data = λ w fs nvs_id bytes. (w, failure eopnotsupp);
}

-- uds_app_calculate_key, which nothing calls.
unfoldable pub calculate_key : List ℕ → ℕ
calculate_key seed = 0

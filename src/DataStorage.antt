-- ===== src/DataStorage.antt =====
-- src/uds_data_storage.c: the vehicle's VIN, in RAM and behind an application hook in NVS.
pub mod Vin
use zephyr_uds.Base.{
  ℕ, not, Option, none, some, List, [], ◌∷◌, ◌==◌, if◌then◌else◌, Buffer, copy, slice,
}
use zephyr_uds.Types.{Ret, success, failure, einval, enxio, eio}
use zephyr_uds.Platform.{Os, App, NvsRead, item, read_failed, ok}

abbrev pub vin_size : ℕ
vin_size = 17

abbrev pub vin_param_id : ℕ
vin_param_id = 0x0200

-- "ZEPHYRISANRTOS123"
abbrev pub factory_vin : List ℕ
factory_vin =
    b'Z' ∷ b'E' ∷ b'P' ∷ b'H' ∷ b'Y' ∷ b'R' ∷ b'I' ∷ b'S' ∷ b'A' ∷ b'N' ∷ b'R' ∷ b'T' ∷ b'O' ∷ b'S'
    ∷ b'1' ∷ b'2' ∷ b'3' ∷ []

-- What nvs_read copied, over the buffer that it was given.
abbrev pub read_into : Buffer → NvsRead → Buffer
read_into buf (item n bytes) = copy buf 0 bytes
read_into buf (read_failed e) = buf

module _ {W : Type 0} (os : Os W) (app : App W) where
  -- uds_data_storage_init: `vehicle_vin` afterwards.
  unfoldable pub init : W → Buffer → Buffer
  init w vehicle_vin =
      let factory = copy vehicle_vin 0 factory_vin in
      elim (app.get_nvs_context w) [
        | none ↦ factory
        | some fs ↦ read_into factory (os.nvs_read w fs vin_param_id vin_size)
      ]

  -- uds_data_storage_set_vin; `none` is a NULL pointer.
  unfoldable pub set_vin : W → Buffer → Option Buffer → ℕ → W × Buffer × Ret
  set_vin w vehicle_vin none len = (w, vehicle_vin, failure einval)
  set_vin w vehicle_vin (some new_vin) len =
      if not (len == vin_size)
      then (w, vehicle_vin, failure einval)
      else elim (app.get_nvs_context w) [
        | none ↦ (w, vehicle_vin, failure enxio)
        | some fs ↦
            let (w', ret) =
              app.write_persistent_data w fs vin_param_id (slice 0 vin_size new_vin) in
            if not (ok ret)
            then (w', vehicle_vin, failure eio)
            else (w', copy vehicle_vin 0 (slice 0 vin_size new_vin), success)
      ]

-- uds_data_storage_get_vin: the array, as its bytes.
unfoldable pub get_vin : Buffer → List ℕ
get_vin vehicle_vin = slice 0 vin_size vehicle_vin

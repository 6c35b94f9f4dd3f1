-- ===== src/DataStorage/Vin.antt =====
-- src/uds_data_storage.c: the VIN in RAM against the VIN in NVS.
use zephyr_uds.Base.{
  ℕ, ◌≡◌, ◌≢◌, refl, Option-cases, inl, inr, some, List, Buffer, copy, slice, arith, ◌⊎◌,
  Bool-cases, ◌==◌,
}
use zephyr_uds.Types.{success}
use zephyr_uds.Platform.{Os, App, Fs, item, ok}
use zephyr_uds.DataStorage.{vin_size, vin_param_id, factory_vin, init, set_vin, get_vin}

get_vin-copy :
    (vin new_vin : Buffer)
    → get_vin (copy vin 0 (slice 0 vin_size new_vin)) ≡ slice 0 vin_size new_vin
unfolding get_vin
get_vin-copy vin new_vin = refl

module _ {W : Type 0} (os : Os W) (app : App W) where
  -- The application's hook, where it succeeds, stores the VIN that it is given where
  -- uds_data_storage_init reads.
  pub record Stores : Type 0 where
    pub stores :
        (w : W) (fs : Fs) (new_vin : Buffer)
        → let bytes = slice 0 vin_size new_vin in
          (app.write_persistent_data w fs vin_param_id bytes).1 ≡ success
          → os.nvs_read
              (app.write_persistent_data w fs vin_param_id bytes).0
              fs
              vin_param_id
              vin_size
            ≡ item 17 bytes
    pub same_context :
        (w : W) (fs : Fs) (bytes : List ℕ)
        → app.get_nvs_context (app.write_persistent_data w fs vin_param_id bytes).0
          ≡ app.get_nvs_context w

  init-get_vin :
      (w : W) (fs : Fs) (ram new_vin : Buffer)
      → app.get_nvs_context w ≡ some fs
      → os.nvs_read w fs vin_param_id vin_size ≡ item 17 (slice 0 vin_size new_vin)
      → get_vin (init os app w ram) ≡ slice 0 vin_size new_vin
  unfolding init
  init-get_vin w fs ram new_vin found read =
      ground (arith, get_vin-copy (copy ram 0 factory_vin) new_vin)

  -- Setting a VIN either succeeds, for 17 bytes that the file system takes, and then the getter
  -- gives those bytes, and so does the module after a reboot, whatever its RAM holds then; or it
  -- fails, and then the VIN in RAM is as it was. The application stores what its hook accepts.
  pub set_vin-get_vin :
      Stores
      → (w : W) (vin new_vin : Buffer) (len : ℕ) (ram : Buffer)
      → let (w', vin', ret) = set_vin os app w vin (some new_vin) len in
        ((ret ≡ success)
          × (len ≡ vin_size)
          × (get_vin vin' ≡ slice 0 vin_size new_vin)
          × (get_vin (init os app w' ram) ≡ slice 0 vin_size new_vin))
        ⊎ ((ret ≢ success) × (vin' ≡ vin))
  unfolding set_vin
  set_vin-get_vin laws w vin new_vin len ram =
      let bytes = slice 0 vin_size new_vin in
      elim (Bool-cases (len == vin_size)) [
        | inr other ↦ inr (ground arith, ground arith)
        | inl whole ↦ elim (Option-cases (app.get_nvs_context w)) [
          | inl e ↦ inr (ground arith, ground arith)
          | inr (fs, e) ↦
              let wrote = app.write_persistent_data w fs vin_param_id bytes in
              elim (Bool-cases (ok wrote.1)) [
                | inr bad ↦ inr (ground arith, ground arith)
                | inl fine ↦ inl (
                  ground arith,
                  ground arith,
                  ground (arith, get_vin-copy vin new_vin),
                  ground (
                    arith,
                    laws.stores w fs new_vin,
                    laws.same_context w fs bytes,
                    init-get_vin wrote.0 fs ram new_vin,
                  ),
                )
              ]
        ]
      ]

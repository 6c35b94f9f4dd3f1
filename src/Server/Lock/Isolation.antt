-- ===== src/Server/Lock/Isolation.antt =====
-- src/uds_server.c: no service but SecurityAccess touches what uds_security.c keeps in NVS, if the
-- application's hooks do not.
use zephyr_uds.Base.{◌+◌, ◌-◌, u32, slice, ℕ, ◌≢◌, refl, List, Buffer, arith}
use zephyr_uds.Types.{Addressing, physical, functional}
use zephyr_uds.Platform.{NvsRead, Config, Os, App, security_fs}
use zephyr_uds.Flash
use zephyr_uds.Server.State.{Server}
use zephyr_uds.Server.Services
use zephyr_uds.Server.Process.{Service, security_access, request_download, transfer_data, serve}
use zephyr_uds.Server.Quiet.{Same, Quiet, serve-Same}

module _ {W : Type 0} (os : Os W) where
  -- The items of the module's own file system, as it reads them.
  abbrev pub stored_items : W → ℕ → NvsRead
  stored_items w id = os.nvs_read w security_fs id 1

  -- They stay.
  abbrev pub Keeps : W → W → Type 0
  Keeps = Same stored_items

module _ {W : Type 0} (os : Os W) (app : App W) where
  -- The hooks, and the start of the CAN controller, leave that file system alone.
  pub record Isolated : Type 0 where
    pub quiet : Quiet (stored_items os) os app
    pub erase : (w : W) (address size : ℕ) → Keeps os w (app.flash_erase_target w address size).0
    pub write_block :
        (w : W) (offset : ℕ) (bytes : List ℕ) → Keeps os w (app.flash_write_block w offset bytes).0

module _ {W : Type 0} (c : Config) (os : Os W) (app : App W) where
  -- No service but SecurityAccess changes what the module's file system reads.
  pub serve-Keeps :
      Isolated os app
      → (v : Service) (a : Addressing) (s : Server W) (req : Buffer) (len : ℕ) → v ≢ security_access
      → Keeps os s.world (serve c os app v a s req len).0.world
  serve-Keeps laws request_download physical s req len other id =
      let address = Flash.read_field req 3 (Flash.address_len (req 2)) 0 in
      let size = Flash.read_field req (3 + Flash.address_len (req 2)) (Flash.size_len (req 2)) 0 in
      unfold serve Services.request_download Flash.request_download Flash.start_download in
      ground (arith, laws.erase s.world address size id)
  serve-Keeps laws request_download functional s req len other id = unfold serve in refl
  serve-Keeps laws transfer_data physical s req len other id =
      let offset = u32 (s.flash.memory_address + s.flash.bytes_received) in
      unfold serve Services.transfer_data Flash.transfer_data in
      ground (arith, laws.write_block s.world offset (slice 2 (len - 2) req) id)
  serve-Keeps laws transfer_data functional s req len other id = unfold serve in refl
  serve-Keeps laws v a s req len other id =
      serve-Same (stored_items os) os app c laws.quiet v a s req len other (λ e. cc) (λ e. cc) id

-- ===== src/Server/Width.antt =====
-- The words that the handlers compute from a request and the platform does not give, within their
-- width, and the counts within their arrays.
pub mod Life
pub mod Counts
use zephyr_uds.Base.{ℕ, zero, suc, ◌+◌, ◌*◌, ◌^◌, ◌≤◌, ◌<◌, u32, Buffer, arith}
use zephyr_uds.Types.{Addressing, physical}
use zephyr_uds.Platform.{Config, Os, App}
use zephyr_uds.Flash
use zephyr_uds.Flash.{Flash, read_field}
use zephyr_uds.Base.{IsBytes}
use zephyr_uds.ClearDtc
use zephyr_uds.ClearDtc.{ClearDtc}
use zephyr_uds.DynamicDid
use zephyr_uds.DynamicDid.{DynamicDidMap}
use zephyr_uds.Periodic
use zephyr_uds.Periodic.{Periodic}
use zephyr_uds.Server.State.{Server}
use zephyr_uds.Server.Services
use zephyr_uds.Server.Process.{
  Service, define_dynamic_did, clear_dtc, periodic, request_download, transfer_data, transfer_exit,
  serve,
}

abbrev pub IsFlash : Flash → Type 0
IsFlash f =
    (f.memory_address < 2 ^ 32)
    × (f.memory_size < 2 ^ 32)
    × (f.bytes_received < 2 ^ 32)
    × (f.expected_block_counter < 256)

abbrev pub IsPeriodic : Periodic → Type 0
IsPeriodic p = (p.active_did_count ≤ 5) × IsBytes p.active_periodic_dids

abbrev pub IsDynamic : DynamicDidMap → Type 0
IsDynamic m =
    (m.entry_count ≤ 1)
    × ((m.entries 0).length < 256)
    × ((m.entries 0).position < 256)
    × (m.dyn_did < 65536)

abbrev pub IsClear : ClearDtc → Type 0
IsClear d = (d.target_dtc_group < 2 ^ 24) × (d.stored_sid < 256)

-- The received bytes, and the words of four files: those of the download, of the periodic
-- identifiers, of the dynamic map without its source, and of the clearing.
pub record IsWithin {W : Type 0} (s : Server W) : Type 0 where
  pub rx : IsBytes s.rx_buf
  pub flash : IsFlash s.flash
  pub periodic : IsPeriodic s.periodic
  pub dynamic : IsDynamic s.dyn_map
  pub clear : IsClear s.clear_dtc

read_field-lt :
    (req : Buffer) (idx rounds value : ℕ)
    → IsBytes req
    → value < 2 ^ 32
    → read_field req idx rounds value < 2 ^ 32
unfolding read_field
read_field-lt req idx zero value h v = v
read_field-lt req idx (suc rounds) value h v =
    read_field-lt req (suc idx) rounds (u32 (value * 256) + req idx) h (omega (arith, h idx))

define-IsDynamic :
    (m : DynamicDidMap) (req : Buffer) (len : ℕ)
    → IsBytes req
    → IsDynamic m
    → IsDynamic (DynamicDid.define m req len).0
unfolding DynamicDid.define
define-IsDynamic m req len h k = ground (arith, h 2, h 3, h 6, h 7)

handle-IsPeriodic :
    (p : Periodic) (req : Buffer) (len : ℕ)
    → IsBytes req
    → IsPeriodic p
    → IsPeriodic (Periodic.handle p req len).0
unfolding Periodic.handle
handle-IsPeriodic p req len h k = (ground arith, λ i. ground (arith, h 2, k.1 i))

module _ {W : Type 0} (c : Config) (os : Os W) (app : App W) where
  handle-IsClear :
      (w : W) (d : ClearDtc) (req : Buffer) (len : ℕ)
      → IsBytes req
      → IsClear d
      → IsClear (ClearDtc.handle os w d req len).0
  unfolding ClearDtc.handle
  handle-IsClear w d req len h k = ground (arith, h 0, h 1, h 2, h 3)

  request_download-IsFlash :
      (s : Server W) (req : Buffer) (len : ℕ)
      → IsBytes req
      → IsFlash s.flash
      → IsFlash (Services.request_download c os app s req len).0.flash
  unfolding Services.request_download Flash.request_download Flash.start_download
  request_download-IsFlash s req len h k = ground (
    arith,
    read_field-lt req 3 (Flash.address_len (req 2)) 0 h (omega arith),
    read_field-lt req (3 + Flash.address_len (req 2)) (Flash.size_len (req 2)) 0 h (omega arith),
  )

  transfer_data-IsFlash :
      (s : Server W) (req : Buffer) (len : ℕ)
      → IsFlash s.flash
      → IsFlash (Services.transfer_data c os app s req len).0.flash
  unfolding Services.transfer_data Flash.transfer_data
  transfer_data-IsFlash s req len k = ground arith

  pub serve-IsWithin :
      (v : Service) (a : Addressing) (s : Server W) (req : Buffer) (len : ℕ)
      → IsBytes req
      → IsWithin s
      → IsWithin (serve c os app v a s req len).0
  unfolding serve Services.session_control Services.ecu_reset Services.clear_dtc Services.read_dtc
      Services.write_did Services.periodic Services.define_dynamic_did Services.io_control
      Services.routine_control Services.security_access Services.transfer_exit Flash.transfer_exit
      Services.response_on_event Services.tester_present Services.read_did Services.answer_read
  serve-IsWithin define_dynamic_did a s req len h k = record {
    rx = k.rx;
    flash = k.flash;
    periodic = k.periodic;
    dynamic = define-IsDynamic s.dyn_map req len h k.dynamic;
    clear = k.clear;
  }
  serve-IsWithin clear_dtc a s req len h k = record {
    rx = k.rx;
    flash = k.flash;
    periodic = k.periodic;
    dynamic = k.dynamic;
    clear = handle-IsClear s.world s.clear_dtc req len h k.clear;
  }
  serve-IsWithin periodic a s req len h k = record {
    rx = k.rx;
    flash = k.flash;
    periodic = handle-IsPeriodic s.periodic req len h k.periodic;
    dynamic = k.dynamic;
    clear = k.clear;
  }
  serve-IsWithin request_download physical s req len h k =
      let flash' = request_download-IsFlash s req len h k.flash in
      unfold Services.request_download in
      record {
        rx = k.rx;
        flash = flash';
        periodic = k.periodic;
        dynamic = k.dynamic;
        clear = k.clear;
      }
  serve-IsWithin transfer_data physical s req len h k =
      let flash' = transfer_data-IsFlash s req len k.flash in
      unfold Services.transfer_data in
      record {
        rx = k.rx;
        flash = flash';
        periodic = k.periodic;
        dynamic = k.dynamic;
        clear = k.clear;
      }
  serve-IsWithin transfer_exit physical s req len h k = record {
    rx = k.rx;
    flash = ground arith;
    periodic = k.periodic;
    dynamic = k.dynamic;
    clear = k.clear;
  }
  serve-IsWithin _ a s req len h k = record {
    rx = ground (arith, k.rx);
    flash = ground arith;
    periodic = ground (arith, k.periodic);
    dynamic = ground arith;
    clear = ground arith;
  }

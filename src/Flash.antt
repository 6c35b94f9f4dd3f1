-- ===== src/Flash.antt =====
-- src/uds_flash_pipeline.c: RequestDownload (0x34), TransferData (0x36) and RequestTransferExit
-- (0x37).
pub mod Stream
pub mod Gate
pub mod Download
pub mod Programming
pub mod Moves
pub mod Image
use Prim.Native.Nat.{bit_and}
use zephyr_uds.Base.{
  ℕ, zero, suc, ◌+◌, ◌-◌, ◌*◌, ◌/◌, Bool, true, false, not, [], ◌∷◌, ltb, ◌==◌, if◌then◌else◌, u8,
  u32, Buffer, store, slice,
}
use zephyr_uds.Types.{SessionType, default_session, SecurityStatus, send}
use zephyr_uds.Types.Nrc
use zephyr_uds.Platform.{Config, App, Reply, refuse, ok}
use zephyr_uds.Security.{is_unlocked}

-- flash_state_t
pub data PipelineState : Type 0 where
  idle download_approved transferring : PipelineState

-- The statics of the file.
pub record Flash : Type 0 where
  pub pipeline_state : PipelineState
  pub memory_address : ℕ  -- uint32_t
  pub memory_size : ℕ  -- uint32_t
  pub bytes_received : ℕ  -- uint32_t
  pub expected_block_counter : ℕ  -- uint8_t

-- uds_flash_pipeline_init, and the initial values of the statics
unfoldable pub init : Flash
init = record {
  pipeline_state = idle;
  memory_address = 0;
  memory_size = 0;
  bytes_received = 0;
  expected_block_counter = 1;
}

abbrev pub is_default : SessionType → Bool
is_default default_session = true
is_default _ = false

abbrev pub is_idle : PipelineState → Bool
is_idle idle = true
is_idle _ = false

abbrev pub is_transferring : PipelineState → Bool
is_transferring transferring = true
is_transferring _ = false

-- The loops that read an address or a size: `value = (value << 8) | req[idx++]`, for the rounds
-- left, in 32 bits.
unfoldable pub read_field : Buffer → ℕ → ℕ → ℕ → ℕ
read_field req idx zero value = value
read_field req idx (suc rounds) value =
    read_field req (suc idx) rounds (u32 (value * 256) + req idx)

abbrev pub address_len : ℕ → ℕ
address_len alf_id = bit_and alf_id 0x0F

abbrev pub size_len : ℕ → ℕ
size_len alf_id = bit_and (alf_id / 16) 0x0F

module _ {W : Type 0} (c : Config) (app : App W) where
  -- uds_handle_request_download behind its checks. Address and size are stored before the
  -- application is asked to erase.
  unfoldable pub start_download : W → Flash → Buffer → Buffer → Flash × Reply W
  start_download w f req tx =
      let address_bytes = address_len (req 2) in
      let address = read_field req 3 address_bytes 0 in
      let size = read_field req (3 + address_bytes) (size_len (req 2)) 0 in
      let f' = record f { memory_address = address; memory_size = size } in
      let (w', erased) = app.flash_erase_target w address size in
      if not (ok erased)
      then (f', refuse w' tx (req 0) Nrc.upload_download_not_accepted)
      else let tx' =
          store (store (store (store tx 0 (u8 (req 0 + 0x40))) 1 0x20) 2 (u8 (c.buff_size / 256))) 3
            (u8 c.buff_size) in
        (
          record f' {
            bytes_received = 0;
            expected_block_counter = 1;
            pipeline_state = download_approved;
          },
          record { world = w'; tx_buf = tx'; out = send (slice 0 4 tx') ∷ [] },
        )

  -- uds_handle_request_download
  unfoldable pub request_download :
      SessionType → SecurityStatus → W → Flash → Buffer → ℕ → Buffer → Flash × Reply W
  request_download session security w f req len tx =
      if is_default session
      then (f, refuse w tx (req 0) Nrc.sub_function_not_supported_in_active_sess)
      else if not (is_unlocked security)
      then (f, refuse w tx (req 0) Nrc.security_access_denied)
      else if ltb len 5
      then (f, refuse w tx (req 0) Nrc.incorrect_length_or_invalid_format)
      else if not (len == 3 + address_len (req 2) + size_len (req 2))
      then (f, refuse w tx (req 0) Nrc.incorrect_length_or_invalid_format)
      else start_download w f req tx

module _ {W : Type 0} (app : App W) where
  -- uds_handle_transfer_data
  unfoldable pub transfer_data : W → Flash → Buffer → ℕ → Buffer → Flash × Reply W
  transfer_data w f req len tx =
      if is_idle f.pipeline_state
      then (f, refuse w tx (req 0) Nrc.request_sequence_error)
      else if ltb len 3
      then (f, refuse w tx (req 0) Nrc.incorrect_length_or_invalid_format)
      else if not (req 1 == f.expected_block_counter)
      then (f, refuse w tx (req 0) Nrc.wrong_block_sequence_counter)
      else let payload = slice 2 (len - 2) req in
        let current_offset = u32 (f.memory_address + f.bytes_received) in
        let (w', wrote) = app.flash_write_block w current_offset payload in
        if not (ok wrote)
        then (f, refuse w' tx (req 0) Nrc.transfer_data_suspended)
        else let tx' = store (store tx 0 (u8 (req 0 + 0x40))) 1 (req 1) in
          (
            record f {
              bytes_received = u32 (f.bytes_received + (len - 2));
              expected_block_counter = u8 (f.expected_block_counter + 1);
              pipeline_state = transferring;
            },
            record { world = w'; tx_buf = tx'; out = send (slice 0 2 tx') ∷ [] },
          )

-- uds_handle_request_transfer_exit. A transfer that is too short is only logged.
unfoldable pub transfer_exit : {W : Type 0} → W → Flash → Buffer → Buffer → Flash × Reply W
transfer_exit w f req tx =
    if not (is_transferring f.pipeline_state)
    then (f, refuse w tx (req 0) Nrc.request_sequence_error)
    else let tx' = store tx 0 (u8 (req 0 + 0x40)) in
      (
        record f { pipeline_state = idle },
        record { world = w; tx_buf = tx'; out = send (slice 0 1 tx') ∷ [] },
      )

-- ===== src/Security.antt =====
-- src/uds_security.c: SecurityAccess (0x27), its counter of failed keys, and the lockout that
-- outlives a reboot in the module's own NVS file system.
pub mod Access
pub mod Guessing
pub mod Persistence
pub mod Automaton
use zephyr_uds.Base.{
  ℕ, zero, suc, ◌+◌, ◌-◌, ◌*◌, ◌/◌, ◌^◌, Bool, true, false, ◌&&◌, ◌||◌, not, Option, none, some,
  List, [], ◌∷◌, ltb, leb, ◌==◌, if◌then◌else◌, replicate, u8, Buffer, store, copy, slice,
}
use zephyr_uds.Types.{
  SecurityStatus, locked, seed_requested, unlocked, brute_force_lockout, Out, send, nrc, timer_init,
  timer_start, lockout_timer,
}
use zephyr_uds.Types.Nrc
use mathlib.Core.Option
use zephyr_uds.Platform.{Config, Os, App, Reply, refuse, security_fs, ok, returned, read_byte}

-- The statics of the file.
pub record Security : Type 0 where
  pub status : SecurityStatus
  pub generated_seed : List ℕ
  pub failed_attempts_counter : ℕ

abbrev pub counter_id : ℕ
counter_id = 1

abbrev pub lockout_state_id : ℕ
lockout_state_id = 2

-- The values that the statics have before uds_security_init.
unfoldable pub power_on : Config → Security
power_on c = record {
  status = locked;
  generated_seed = replicate c.seed_size 0;
  failed_attempts_counter = 0;
}

abbrev pub is_locked_out : SecurityStatus → Bool
is_locked_out brute_force_lockout = true
is_locked_out _ = false

abbrev pub is_unlocked : SecurityStatus → Bool
is_unlocked unlocked = true
is_unlocked _ = false

abbrev pub is_seed_requested : SecurityStatus → Bool
is_seed_requested seed_requested = true
is_seed_requested _ = false

-- uds_security_reset_lock
unfoldable pub reset_lock : Security → Security
reset_lock s = if is_locked_out s.status then s else record s { status = locked }

-- The loop over `generated_seed[i] = (uint8_t)(uptime >> (i * 8))`, `n` rounds from `i` on.
unfoldable pub uptime_seed : ℕ → ℕ → ℕ → List ℕ
uptime_seed uptime i zero = []
uptime_seed uptime i (suc n) = u8 (uptime / 2 ^ (i * 8)) ∷ uptime_seed uptime (suc i) n

module _ {W : Type 0} (c : Config) (os : Os W) where
  -- lockout_timer_expiry_cb
  unfoldable pub lockout_timer_expiry : W → Security → W × Security
  lockout_timer_expiry w s = (
    os.nvs_write (os.nvs_write w security_fs counter_id (0 ∷ [])) security_fs lockout_state_id
        (0 ∷ []),
    record s { status = locked; failed_attempts_counter = 0 },
  )

  -- uds_security_init behind the mount: a stored lockout is taken up again, else the counter is.
  unfoldable pub restore : W → Security → Security × List Out
  restore w s =
      let stored_lockout = os.nvs_read w security_fs lockout_state_id 1 in
      if ltb 0 (returned stored_lockout) && read_byte stored_lockout 0 == 1
      then (
        record s {
          status = brute_force_lockout;
          failed_attempts_counter = u8 c.max_failed_attempts;
        },
        timer_start lockout_timer c.lockout_time_ms 0 ∷ [],
      )
      else (
        record s {
          failed_attempts_counter =
              read_byte (os.nvs_read w security_fs counter_id 1) s.failed_attempts_counter;
        },
        [],
      )

  -- The number of sectors in the partition, or `none` where the page's size cannot be read.
  abbrev pub sector_count : W → Option ℕ
  sector_count w = elim (os.page_size w) [
    | none ↦ none
    | some size ↦ some (os.partition_size / size)
  ]

  -- uds_security_init
  unfoldable pub init : W → Security → W × Security × List Out
  init w s =
      if not (os.storage_ready w)
      then (w, s, timer_init lockout_timer ∷ [])
      else elim (sector_count w) [
        | none ↦ (w, s, timer_init lockout_timer ∷ [])
        | some count ↦
            if count == 0
            then (w, s, timer_init lockout_timer ∷ [])
            else let (w', mounted) = os.nvs_mount w in
              if not (ok mounted)
              then (w', s, timer_init lockout_timer ∷ [])
              else let (s', started) = restore w' s in (w', s', timer_init lockout_timer ∷ started)
      ]

  -- The seed of a request in a state that is not locked out: zeros where access is granted
  -- already, else fresh bytes, of the entropy source or of the clock.
  unfoldable pub generate_seed : W → Security → W × Security
  generate_seed w s =
      if is_unlocked s.status
      then (w, record s { generated_seed = replicate c.seed_size 0 })
      else if os.entropy_ready w
      then (let (w', bytes) = os.get_entropy w c.seed_size in
          (
            w',
            record s {
              generated_seed = Option.get_or bytes s.generated_seed;
              status = seed_requested;
            },
          ))
      else (
        w,
        record s {
          generated_seed = uptime_seed (os.uptime_32 w) 0 c.seed_size;
          status = seed_requested;
        },
      )

  -- Request Seed, sub-functions 0x01 and 0x03.
  unfoldable pub request_seed : W → Security → Buffer → ℕ → Buffer → Security × Reply W
  request_seed w s req len tx =
      if not (len == 2)
      then (s, refuse w tx (req 0) Nrc.incorrect_length_or_invalid_format)
      else let (w', s') = generate_seed w s in
        let tx' = copy (store (store tx 0 (u8 (req 0 + 0x40))) 1 (req 1)) 2 s'.generated_seed in
        (s', record { world = w'; tx_buf = tx'; out = send (slice 0 (2 + c.seed_size) tx') ∷ [] })

module _ {W : Type 0} (c : Config) (os : Os W) (app : App W) where
  -- `local_key_buf`, 16 bytes: filled from the request if the key fits.
  unfoldable pub local_key : W → Buffer → List ℕ
  local_key w req =
      if leb c.seed_size 16 then slice 2 c.seed_size req else slice 0 c.seed_size (os.stack w)

  -- The branch of a key that the application accepts.
  unfoldable pub grant : W → Security → Buffer → Buffer → Security × Reply W
  grant w s req tx =
      let tx' = store (store tx 0 (u8 (req 0 + 0x40))) 1 (req 1) in
      (
        record s { status = unlocked; failed_attempts_counter = 0 },
        record {
          world = os.nvs_write w security_fs counter_id (0 ∷ []);
          tx_buf = tx';
          out = send (slice 0 2 tx') ∷ [];
        },
      )

  -- The branch of a key that it refuses.
  unfoldable pub count_failure : W → Security → Buffer → Buffer → Security × Reply W
  count_failure w s req tx =
      let attempts = u8 (s.failed_attempts_counter + 1) in
      let w' = os.nvs_write w security_fs counter_id (attempts ∷ []) in
      if leb c.max_failed_attempts attempts
      then (
        record s { status = brute_force_lockout; failed_attempts_counter = attempts },
        record {
          world = os.nvs_write w' security_fs lockout_state_id (1 ∷ []);
          tx_buf = tx;
          out =
              timer_start lockout_timer c.lockout_time_ms 0
              ∷ nrc (req 0) Nrc.exceeded_number_of_attempts
              ∷ [];
        },
      )
      else (
        record s { status = locked; failed_attempts_counter = attempts },
        refuse w' tx (req 0) Nrc.invalid_key,
      )

  -- Send Key, sub-functions 0x02 and 0x04.
  unfoldable pub send_key : W → Security → Buffer → ℕ → Buffer → Security × Reply W
  send_key w s req len tx =
      if not (len == 2 + c.seed_size)
      then (s, refuse w tx (req 0) Nrc.incorrect_length_or_invalid_format)
      else if not (is_seed_requested s.status)
      then (s, refuse w tx (req 0) Nrc.request_sequence_error)
      else let check_level = req 1 - 1 in
        let (w', access) = app.verify_key_krypto w check_level s.generated_seed (local_key w req) in
        if ok access then grant w' s req tx else count_failure w' s req tx

  -- uds_security_handle_request
  unfoldable pub handle_request : W → Security → Buffer → ℕ → Buffer → Security × Reply W
  handle_request w s req len tx =
      if ltb len 2
      then (s, refuse w tx (req 0) Nrc.incorrect_length_or_invalid_format)
      else if is_locked_out s.status
      then (s, refuse w tx (req 0) Nrc.exceeded_number_of_attempts)
      else if req 1 == 0x01 || req 1 == 0x03
      then request_seed c os w s req len tx
      else if req 1 == 0x02 || req 1 == 0x04
      then send_key w s req len tx
      else (s, refuse w tx (req 0) Nrc.sub_function_not_supported)

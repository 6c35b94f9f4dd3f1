-- ===== src/Types.antt =====
-- include/zephyr/canbus/uds_types.h: the enumerations and the DTC record; the error numbers that
-- the code compares; and the outgoing calls that the handlers make.
pub mod Nrc
use zephyr_uds.Base.{ℕ, List}

-- uds_addressing_t
pub data Addressing : Type 0 where
  physical functional : Addressing

-- uds_session_type_t
pub data SessionType : Type 0 where
  default_session programming_session extended_session : SessionType

-- uds_security_status_t
pub data SecurityStatus : Type 0 where
  locked seed_requested unlocked brute_force_lockout : SecurityStatus

-- routine_status_t
pub data RoutineStatus : Type 0 where
  idle running completed failed : RoutineStatus

-- uds_dtc_t
pub record Dtc : Type 0 where
  pub code0 : ℕ
  pub code1 : ℕ
  pub code2 : ℕ
  pub status : ℕ

-- The error numbers of <errno.h> that the code names, and any other.
pub data Errno : Type 0 where
  enoent eio enxio enomem eacces einval enodev eopnotsupp : Errno
  other_errno : ℕ → Errno

-- An `int` that is 0, or -EXXX, or any other number that is not 0.
pub data Ret : Type 0 where
  success : Ret
  failure : Errno → Ret

-- The kernel timers and work items of the modules.
pub data Timer : Type 0 where
  s3_timer lockout_timer reset_timer nrc78_timer routine_nrc78_timer : Timer

pub data Work : Type 0 where
  clear_dtc_work routine_work : Work

-- The argument of sys_reboot.
pub data Reboot : Type 0 where
  cold warm : Reboot

-- What the code calls and does not wait for, in the order of the calls. `send` and `nrc` are the
-- callbacks `send_cb(data, len)` and `nrc_cb(sid, nrc)` of a handler.
pub data Out : Type 0 where
  send : List ℕ → Out
  nrc : ℕ → ℕ → Out
  timer_init : Timer → Out
  -- k_timer_start(timer, duration, period), in milliseconds; period 0 is one shot.
  timer_start : Timer → ℕ → ℕ → Out
  timer_stop : Timer → Out
  work_init : Work → Out
  work_submit : Work → Out
  sleep_ms : ℕ → Out
  reboot : Reboot → Out
  -- k_thread_create of the receiving thread
  thread_create : Out

-- ===== src/Session.antt =====
-- src/uds_session.c: the diagnostic session and the S3 timer. `current_session` is the state; the
-- S3 timer is the kernel's, and is seen by the calls that start and stop it.
use zephyr_uds.Base.{◌∷◌, List, []}
use zephyr_uds.Types.{
  SessionType, default_session, s3_timer, Out, timer_init, timer_start, timer_stop,
}
use zephyr_uds.Platform.{Config}
use zephyr_uds.Security.{Security, reset_lock}

-- uds_session_init
unfoldable pub init : SessionType × List Out
init = (default_session, timer_init s3_timer ∷ [])

-- uds_session_refresh_timer
unfoldable pub refresh_timer : Config → SessionType → List Out
refresh_timer c default_session = timer_stop s3_timer ∷ []
refresh_timer c _ = timer_start s3_timer c.s3_timeout_ms 0 ∷ []

-- uds_session_set
unfoldable pub set : Config → SessionType → SessionType × List Out
unfolding refresh_timer
set c new_session = (new_session, refresh_timer c new_session)

-- s3_timer_expiry_cb
unfoldable pub s3_timer_expiry : SessionType → Security → SessionType × Security
unfolding reset_lock
s3_timer_expiry default_session security = (default_session, security)
s3_timer_expiry _ security = (default_session, reset_lock security)

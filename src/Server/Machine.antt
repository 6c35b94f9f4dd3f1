-- ===== src/Server/Machine.antt =====
-- src/uds_server.c: uds_init, the receiving thread, and what the kernel runs beside it: the timer
-- callbacks, the work items and the sampling thread. Each of these runs to its end before the next.
use zephyr_uds.Base.{
  ℕ, not, Option, none, some, List, [], ◌∷◌, ◌++◌, if◌then◌else◌, length, Buffer, copy,
}
use mathlib.Core.List.{flatten}
use zephyr_uds.Types.{
  Addressing, physical, functional, Ret, success, failure, enodev, Out, thread_create,
}
use zephyr_uds.Platform.{Config, Os, App}
use zephyr_uds.Session
use zephyr_uds.Security
use zephyr_uds.Flash
use zephyr_uds.Routine
use zephyr_uds.ClearDtc
use zephyr_uds.DynamicDid
use zephyr_uds.Periodic
use zephyr_uds.Reset
use zephyr_uds.Server.State.{Server, perform_all}
use zephyr_uds.Server.Process.{process_request}

pub data Event : Type 0 where
  -- isotp_recv gave these bytes on the physical or the functional link
  received : Addressing → List ℕ → Event
  s3_expires lockout_expires reset_expires nrc78_expires routine_nrc78_expires : Event
  clear_dtc_runs routine_runs periodic_runs : Event

-- A life of the controller, with its restarts.
pub data Moment : Type 0 where
  happens : Event → Moment
  restarts : Buffer → ℕ → Moment

module _ {W : Type 0} where
  -- The statics of all files at power-on. `rx`, `tx` and `stack` are what the arrays hold.
  unfoldable pub power_on : Config → W → Buffer → ℕ → Server W
  unfolding Session.init Security.power_on Flash.init Routine.power_on ClearDtc.power_on
      DynamicDid.power_on Periodic.power_on Reset.power_on
  power_on c w stack data_len = record {
    world = w;
    rx_buf = λ i. 0;
    tx_buf = λ i. 0;
    current_msg_addressing = physical;
    session = Session.init.0;
    security = Security.power_on c;
    flash = Flash.init;
    routine = Routine.power_on;
    clear_dtc = ClearDtc.power_on;
    chosen_reset_type = Reset.power_on;
    dyn_map = DynamicDid.power_on;
    periodic = Periodic.power_on stack data_len;
  }

module _ {W : Type 0} (c : Config) (os : Os W) (app : App W) where
  -- uds_init. What can_start returns is only logged.
  unfoldable pub init : Server W → Ret × Server W × List Out
  init s =
      if not (os.can_ready s.world)
      then (failure enodev, s, [])
      else let (w', started) = os.can_start s.world in
        let (session', session_calls) = Session.init in
        let (w'', security', security_calls) = Security.init c os w' s.security in
        (
          success,
          record s { world = w''; session = session'; security = security'; flash = Flash.init },
          session_calls
              ++ (security_calls
                  ++ (Routine.init ++ (Reset.init ++ (ClearDtc.init ++ thread_create ∷ [])))),
        )

  -- The controller starts anew, after a reboot or a loss of power, and the application calls
  -- uds_init: the world is what it was, and all else as at power-on.
  unfoldable pub restart : Server W → Buffer → ℕ → Server W
  restart s stack data_len = (init (power_on c s.world stack data_len)).1

  -- A message, copied to the receiving buffer and processed.
  unfoldable pub receive : Server W → Addressing → List ℕ → Server W × List Out
  receive s a bytes =
      let rx' = copy s.rx_buf 0 bytes in
      process_request c os app (record s { rx_buf = rx' }) rx' (length bytes) a

  -- One round of uds_rx_thread: what the two calls of isotp_recv gave, `none` for an error.
  unfoldable pub poll : Server W → Addressing → Option (List ℕ) → Server W × List Out
  unfolding receive
  poll s a none = (s, [])
  poll s a (some bytes) = receive s a bytes

  unfoldable pub rx_round : Server W → Option (List ℕ) → Option (List ℕ) → Server W × List Out
  unfolding poll
  rx_round s phys func =
      let (s', sent) = poll s physical phys in
      let (s'', sent') = poll s' functional func in (s'', sent ++ sent')

  -- One event, and the calls that it makes.
  unfoldable pub step : Server W → Event → Server W × List Out
  unfolding receive
  step s (received a bytes) = receive s a bytes
  step s s3_expires =
      let (session', security') = Session.s3_timer_expiry s.session s.security in
      (record s { session = session'; security = security' }, [])
  step s lockout_expires =
      let (w', security') = Security.lockout_timer_expiry c os s.world s.security in
      (record s { world = w'; security = security' }, [])
  step s reset_expires = (s, Reset.reset_timer_expiry s.chosen_reset_type)
  step s nrc78_expires =
      (s, perform_all s.current_msg_addressing (ClearDtc.nrc78_timer_expiry s.clear_dtc))
  step s routine_nrc78_expires =
      (s, perform_all s.current_msg_addressing (Routine.nrc78_timer_expiry s.routine))
  step s clear_dtc_runs =
      let (w', d, calls) = ClearDtc.worker app s.world s.clear_dtc in
      (record s { world = w'; clear_dtc = d }, perform_all s.current_msg_addressing calls)
  step s routine_runs =
      let (w', r, calls) = Routine.worker app s.world s.routine in
      (record s { world = w'; routine = r }, perform_all s.current_msg_addressing calls)
  step s periodic_runs =
      let (w', p, calls) = Periodic.thread_round app s.world s.periodic in
      (record s { world = w'; periodic = p }, perform_all s.current_msg_addressing (flatten calls))

  -- A history of events, with all calls in their order.
  unfoldable pub run : Server W → List Event → Server W × List Out
  unfolding step
  run s [] = (s, [])
  run s (e ∷ es) =
      let (s', calls) = step s e in let (s'', later) = run s' es in (s'', calls ++ later)

  unfoldable pub moment : Server W → Moment → Server W
  unfolding step restart
  moment s (happens e) = (step s e).0
  moment s (restarts stack data_len) = restart s stack data_len

  unfoldable pub live : Server W → List Moment → Server W
  unfolding moment
  live s [] = s
  live s (m ∷ ms) = live (moment s m) ms

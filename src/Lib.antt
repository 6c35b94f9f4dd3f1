-- ===== src/Lib.antt =====
-- The verification of zephyr-uds, a server for Unified Diagnostic Services (ISO 14229) on Zephyr.
--
-- The program receives a message over ISO-TP, dispatches on its first byte, and answers it through
-- two callbacks, one for positive responses and one for negative ones. A handler reads the session
-- and the security status, changes the statics of its own file, and asks the application for the
-- work, through hooks that are declared in include/zephyr/canbus/uds_app_interface.h. Timers, a work
-- queue and a sampling thread act beside the receiving thread.
--
-- The files, and the code that each is about:
--   Types, Types/Nrc     include/zephyr/canbus/uds_types.h; the calls a handler makes (Out)
--   Platform/Hooks       the hooks (App), Zephyr's drivers and kernel (Os), src/Kconfig.uds (Config)
--   Platform/WeakDefaults  src/uds_weak_defaults.c
--   Security             src/uds_security.c: uds_security_init is init, uds_security_handle_request is
--                        handle_request over request_seed and send_key, lockout_timer_expiry_cb is
--                        lockout_timer_expiry, uds_security_reset_lock is reset_lock
--   Session              src/uds_session.c: uds_session_set is set, s3_timer_expiry_cb is
--                        s3_timer_expiry, uds_session_refresh_timer is refresh_timer
--   Flash                src/uds_flash_pipeline.c: request_download, transfer_data, transfer_exit
--   Reset, WriteDid, IoControl, Routine, ClearDtc, ReadDtc, DynamicDid, Periodic, DataStorage
--                        src/uds_reset.c, uds_write_did.c, uds_iocontrol.c, uds_routine.c,
--                        uds_clear_dtc.c, uds_read_dtc.c, uds_dynamic_did.c, uds_periodic.c and
--                        uds_data_storage.c; handle (or handle_control, define, set_vin) is the
--                        handler, worker the work item, and nrc78_timer_expiry a timer's callback
--   Server/State         src/uds_server.c: the statics of all files as one record, uds_send_nrc and
--                        uds_trigger_event_response
--   Server/Services      the cases of the switch in uds_process_request
--   Server/Process       uds_process_request itself
--   Server/Machine       uds_init, a round of uds_rx_thread, and a step for every event: a message,
--                        the expiry of a timer, a work item, a round of the sampling thread; a life
--                        is a series of events and restarts
--   Server/Thread        uds_rx_thread: the two links that it binds, and its loop
--   ClearDtc/Steps       clear_dtc_worker_handler line by line, as a step relation with the timer's
--                        callback and requests
--   Routine/Steps        routine_worker_handler line by line, in the same way
--   Security/Automaton   SecurityAccess apart from the code, as a function of signals: a seed is asked
--                        for, a key is presented, right or wrong, the lock is closed, a lockout ends
--   Flash/Programming    the moves of a device whose flash is programmed, apart from the code, each
--                        for an act: a download of an area, a block with its counter, an end, a start
--   Timing               which timer runs behind a list of calls
--   Base                 what all share: tests on numbers, lists, byte arrays, machine words
--   Tests                a small platform and application (Bench, ServerBench), and the theorems at
--                        concrete inputs
-- The modules below a component's hold its theorems, and are named for them. Those of the whole server
-- stand below Server: Server/Lock on SecurityAccess, Server/Programming on the flash, Server/Quiet on
-- what of the world the services leave alone, Server/Answers, Server/Frames, Server/Residue and
-- Server/Width on what is sent and kept, Server/Flashing on a download, and others each on what its
-- name says.
--
-- How the code is modelled:
--   A function takes the statics that it changes and returns them. The world W holds everything that
--   the program does not: the hooks and drivers are functions on it, of which nothing is known but
--   what a theorem assumes. Arithmetic of uint8_t and uint32_t wraps by % 256 and % 2 ^ 32; `|` of bytes
--   that were shifted apart is a sum. A size_t has 32 bits, and wraps where the code computes one from
--   an argument of a public function (uds_trigger_event_response); other lengths are those of messages
--   and buffers, and are far from wrapping. An errno is a constructor; a hook returns success or a failure.
--   What a handler calls and does not wait for is a list of Out, in the order of the calls: the two
--   callbacks, the starting and stopping of timers, the submission of work, the reboot. Server/State
--   turns the callbacks into frames (perform). Logging is left out, and so are the results of
--   isotp_send and nvs_write, which the code ignores.
--   A byte array is a function from the index, so that a read or a write past its end is seen: the
--   theorems on bounds speak of it. What an array on the stack holds before it is written is a
--   parameter (Os.stack). The statics for callbacks are a Boolean that says they are not NULL.
--   A pointer parameter that a hook may store through is an Option, with the value that it held
--   before where the hook stores nothing.
--   Loops over an index are recursion on the rounds left, which the code bounds, so there is no fuel.
--   The endless loops of the two threads are events, one round each; Server/Thread takes what
--   isotp_recv gives in each round. In Server/Machine each handler, callback, work item and round runs
--   to its end before the next, and a restart comes between two of them; k_work_is_pending is a query
--   of the platform. ClearDtc/Steps and Routine/Steps split the two work items: on one core,
--   a callback of a timer is an interrupt, which the worker does not preempt. The first takes the
--   worker to be preempted between any two lines, with its item pending as long as it is under way;
--   the second relies on the cooperative priority of Zephyr's system work queue: the receiving thread
--   runs while the worker waits for the application or for its final frame.
--   `uptime >> (i * 8)` for i of 4 and more is undefined in C; here it is 0. The fields of struct
--   nvs_fs are taken to be wide enough for the sizes stored in them.
--
-- Not modelled: the CAN frames below ISO-TP, the log, interleavings within the handlers, the priorities
-- and stacks of the threads, and the tests for a NULL request, which no caller passes. A loss of power
-- between two writes of NVS is modelled where a wrong key is counted (Server/Lock/PowerLoss) and where
-- a lockout ends (Server/Lock/PowerCuts), and elsewhere comes between two events.
pub mod Base
pub mod Types
pub mod Platform
pub mod Timing
pub mod Security
pub mod Session
pub mod Flash
pub mod Reset
pub mod WriteDid
pub mod IoControl
pub mod Routine
pub mod ClearDtc
pub mod ReadDtc
pub mod DynamicDid
pub mod Periodic
pub mod DataStorage
pub mod Server
pub mod Tests

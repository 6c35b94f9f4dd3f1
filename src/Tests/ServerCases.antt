-- ===== src/Tests/ServerCases.antt =====
-- The answers of the whole server at concrete inputs.
use zephyr_uds.Base.{
  ℕ, List, length, get_or, inr, Buffer, holding, ◌≡◌, refl, true, some, [], ◌∷◌, all, arith,
}
use zephyr_uds.Types.{physical, functional, send}
use zephyr_uds.Platform.{default_config}
use zephyr_uds.Server.State.{trigger_event_response}
use zephyr_uds.Server.Services.{read_did}
use zephyr_uds.Server.Process.{
  write_did, security_access, transfer_data, service, serve, process_request,
}
use zephyr_uds.Server.Machine.{power_on}
use zephyr_uds.Server.Answers.{answers}
use zephyr_uds.Server.Answers.All.{serve-answers}
use zephyr_uds.Server.Functional.{no_refusal, functional_never_refused}
use zephyr_uds.Server.Replies.{read_did_replies, trigger_event_frames}
use zephyr_uds.Server.Process
use zephyr_uds.Server.Process.{define_dynamic_did}
use zephyr_uds.Server.OneAnswer.{answer_count, serve_once}
use zephyr_uds.Server.DynamicRead.{define_then_read, stack_bytes_sent}
use zephyr_uds.Tests.Bench.{bench_os, bench_app, zeros}
use zephyr_uds.Tests.ServerBench.{
  fresh, did_message, write_message, seed_message, define_message, read_message,
}

serve-answers_example :
    all
      (answers 0x27)
      (serve default_config bench_os bench_app security_access physical fresh seed_message 2).1
    ≡ true
unfolding service
serve-answers_example =
    serve-answers default_config bench_os bench_app security_access physical fresh seed_message 2
      refl

functional_never_refused_example :
    all no_refusal
      (process_request default_config bench_os bench_app fresh write_message 4 functional).1
    ≡ true
functional_never_refused_example =
    functional_never_refused default_config bench_os bench_app fresh write_message 4

read_did_replies_example :
    (read_did default_config bench_os bench_app fresh did_message 3).1
    ≡ send (0x62 ∷ 0xF1 ∷ 0x90 ∷ 10 ∷ 11 ∷ 12 ∷ 13 ∷ []) ∷ []
unfolding power_on
read_did_replies_example =
    read_did_replies default_config bench_os bench_app fresh did_message 3 (omega arith)
      (λ fine. refl)

trigger_event_frames_example :
    trigger_event_response default_config zeros 1 (some did_message) 3
    ≡ send (0x86 ∷ 1 ∷ 0x22 ∷ 0xF1 ∷ 0x90 ∷ []) ∷ []
trigger_event_frames_example =
    trigger_event_frames default_config bench_os bench_app zeros (some did_message) 1 3
      (omega arith)

serve_once_example :
    answer_count
      (serve default_config bench_os bench_app security_access physical fresh seed_message 2).1
    ≡ 1
serve_once_example =
    serve_once default_config bench_os bench_app security_access physical fresh seed_message 2
      (omega arith)

define_then_read_example :
    let s =
      (serve default_config bench_os bench_app define_dynamic_did physical fresh define_message
        9).0 in
    (serve default_config bench_os bench_app Process.read_did physical s read_message 3).1
    ≡ send (0x62 ∷ 0xF3 ∷ 0x01 ∷ 11 ∷ 12 ∷ []) ∷ []
define_then_read_example =
    define_then_read default_config bench_os bench_app physical physical fresh define_message
      read_message 9 3 (omega arith) refl (omega arith) refl refl refl (omega arith) (omega arith)

-- Three bytes from the fourth on, of a source of four.
abbrev define_past : Buffer
define_past = holding (0x2C ∷ 0x01 ∷ 0xF3 ∷ 0x01 ∷ 0x12 ∷ 0x34 ∷ 4 ∷ 3 ∷ 0 ∷ [])

abbrev read_past : Buffer
read_past = holding (0x22 ∷ 0xF3 ∷ 0x01 ∷ [])

-- The last byte of the source, and two that the stack held behind it.
abbrev past_bytes : List ℕ
past_bytes = 13 ∷ 0xAA ∷ 0xAA ∷ []

stack_bytes_sent_example :
    let s' =
      (serve default_config bench_os bench_app define_dynamic_did physical fresh define_past 9).0 in
    ((serve default_config bench_os bench_app Process.read_did physical s' read_past 3).1
      ≡ send (0x62 ∷ 0xF3 ∷ 0x01 ∷ past_bytes) ∷ [])
    × (length past_bytes ≡ 3)
    × (get_or past_bytes 1 0 ≡ 0xAA)
unfolding power_on
stack_bytes_sent_example =
    stack_bytes_sent default_config bench_os bench_app physical physical fresh define_past read_past
      9 3 1 (omega arith) refl (omega arith) refl refl refl (omega arith) (inr (omega arith))

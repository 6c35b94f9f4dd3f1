-- ===== src/Server/Functional.antt =====
-- src/uds_server.c: what a functionally addressed request is not answered with.
use zephyr_uds.Base.{
  all-append, and_both, ℕ, ◌+◌, ◌≡◌, ◌≢◌, refl, Bool, true, Bool-cases, inl, inr, List, [], ◌∷◌,
  ◌==◌, if◌then◌else◌, all, u8, Buffer, arith,
}
use zephyr_uds.Types.{functional, Out, send}
use zephyr_uds.Platform.{Config, Os, App}
use zephyr_uds.Session
use zephyr_uds.Types.{SessionType, default_session}
use zephyr_uds.Server.State.{Server, send_nrc, perform, perform_all}
use zephyr_uds.Server.Answers.{answers}
use zephyr_uds.Server.Answers.All
use zephyr_uds.Server.Process.{Service, other, service, serve, process_request}

-- No negative response frame, but for ResponsePending.
abbrev pub no_refusal : Out → Bool
no_refusal (send (first ∷ sid ∷ code ∷ [])) = if first == 0x7F then code == 0x78 else true
no_refusal _ = true

perform_lem :
    (sid : ℕ) (o : Out)
    → answers sid o ≡ true
    → u8 (sid + 0x40) ≢ 0x7F
    → all no_refusal (perform functional o) ≡ true
unfolding perform send_nrc
perform_lem sid (send []) h k = refl
perform_lem sid (send (a ∷ [])) h k = refl
perform_lem sid (send (a ∷ b ∷ [])) h k = refl
perform_lem sid (send (a ∷ b ∷ d ∷ [])) h k = ground arith
perform_lem sid (send (a ∷ b ∷ d ∷ e ∷ rest)) h k = refl
perform_lem sid o h k = ground arith

perform_all_lem :
    (sid : ℕ) (calls : List Out)
    → all (answers sid) calls ≡ true
    → u8 (sid + 0x40) ≢ 0x7F
    → all no_refusal (perform_all functional calls) ≡ true
unfolding perform_all
perform_all_lem sid [] h k = refl
perform_all_lem sid (o ∷ os) h k =
    let (first, later) = and_both (answers sid o) (all (answers sid) os) h in
    all-append no_refusal (perform functional o) (perform_all functional os)
      (perform_lem sid o first k) (perform_all_lem sid os later k)

refresh_lem :
    (c : Config) (session : SessionType) → all no_refusal (Session.refresh_timer c session) ≡ true
unfolding Session.refresh_timer
refresh_lem c default_session = refl
refresh_lem c _ = refl

sid_lem : (sid : ℕ) → service sid ≢ other → u8 (sid + 0x40) ≢ 0x7F
unfolding service
sid_lem sid h e = ground arith

module _ {W : Type 0} (c : Config) (os : Os W) (app : App W) where
  serve-no_refusal :
      (v : Service) (s : Server W) (req : Buffer) (len : ℕ)
      → service (req 0) ≡ v
      → all no_refusal (perform_all functional (serve c os app v functional s req len).1) ≡ true
  serve-no_refusal other s req len e = unfold serve perform_all perform send_nrc in refl
  serve-no_refusal v s req len e =
      perform_all_lem (req 0) (serve c os app v functional s req len).1
        (All.serve-answers c os app v functional s req len e)
        (sid_lem (req 0) (λ same. ground arith))

  -- A functionally addressed request, of any bytes and in any state, is never answered with a
  -- negative response other than ResponsePending.
  pub functional_never_refused :
      (s : Server W) (req : Buffer) (len : ℕ)
      → all no_refusal (process_request c os app s req len functional).1 ≡ true
  unfolding process_request
  functional_never_refused s req len = elim (Bool-cases (len == 0)) [
    | inl none ↦ rw none refl
    | inr some ↦
        let addressed = record s { current_msg_addressing = functional } in
        rw some (
          all-append no_refusal (Session.refresh_timer c s.session)
            (perform_all functional
              (serve c os app (service (req 0)) functional addressed req len).1)
            (refresh_lem c s.session) (serve-no_refusal (service (req 0)) addressed req len refl))
  ]

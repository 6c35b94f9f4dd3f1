-- ===== src/Server/Arming.antt =====
-- src/uds_session.c and src/uds_server.c: the timers behind the calls that the server performs.
use zephyr_uds.Base.{
  and_both, ℕ, ◌≡◌, refl, ap, ◌∙◌, Bool, true, false, not, List, [], ◌∷◌, all, arith,
}
use zephyr_uds.Types.{
  Addressing, SessionType, default_session, Timer, s3_timer, Out, timer_start, timer_stop,
}
use zephyr_uds.Platform.{Config}
use zephyr_uds.Session
use zephyr_uds.Flash.{is_default}
use zephyr_uds.Server.State.{send_nrc, perform, perform_all}
use zephyr_uds.Timing.{is_s3, arm, armed_after, armed_after-append}
use zephyr_uds.Server.Answers.{proper}

-- A call that leaves the S3 timer alone.
abbrev pub spares : Out → Bool
spares (timer_start t duration period) = not (is_s3 t)
spares (timer_stop t) = not (is_s3 t)
spares o = true

spares_of_proper : (sid : ℕ) (o : Out) → proper sid o ≡ true → spares o ≡ true
spares_of_proper sid (timer_start t duration period) h = h
spares_of_proper sid (timer_stop t) h = h
spares_of_proper sid _ h = refl

pub all_spare :
    (sid : ℕ) (calls : List Out) → all (proper sid) calls ≡ true → all spares calls ≡ true
all_spare sid [] h = refl
all_spare sid (o ∷ os) h = ground (arith, spares_of_proper sid o, all_spare sid os)

-- Performing a callback leaves every timer alone.
armed_after-perform :
    (is_it : Timer → Bool) (a : Addressing) (b : Bool) (o : Out)
    → armed_after is_it b (perform a o) ≡ arm is_it b o
unfolding perform send_nrc
armed_after-perform is_it a b o = ground arith

pub armed_after-perform_all :
    (is_it : Timer → Bool) (a : Addressing) (b : Bool) (calls : List Out)
    → armed_after is_it b (perform_all a calls) ≡ armed_after is_it b calls
unfolding perform_all
armed_after-perform_all is_it a b [] = refl
armed_after-perform_all is_it a b (o ∷ os) =
    armed_after-append is_it b (perform a o) (perform_all a os)
    ∙ (ap (λ armed. armed_after is_it armed (perform_all a os)) (armed_after-perform is_it a b o)
        ∙ armed_after-perform_all is_it a (arm is_it b o) os)

spared : (b : Bool) (calls : List Out) → all spares calls ≡ true → armed_after is_s3 b calls ≡ b
spared b [] h = refl
spared b (o ∷ os) h =
    let (first, later) = and_both (spares o) (all spares os) h in
    let same : arm is_s3 b o ≡ b = ground arith in
    ap (λ armed. armed_after is_s3 armed os) same ∙ spared b os later

pub perform_all_arm :
    (a : Addressing) (b : Bool) (calls : List Out)
    → all spares calls ≡ true
    → armed_after is_s3 b (perform_all a calls) ≡ b
perform_all_arm a b calls h = armed_after-perform_all is_s3 a b calls ∙ spared b calls h

-- A request refreshes the S3 timer outside the default session, and no other timer.
pub refresh_arm :
    (c : Config) (b : Bool) (session : SessionType)
    → armed_after is_s3 b (Session.refresh_timer c session) ≡ not (is_default session)
unfolding Session.refresh_timer
refresh_arm c b default_session = refl
refresh_arm c b _ = refl

pub armed_after-refresh :
    (c : Config) (is_it : Timer → Bool) (b : Bool) (session : SessionType)
    → is_it s3_timer ≡ false
    → armed_after is_it b (Session.refresh_timer c session) ≡ b
unfolding Session.refresh_timer
armed_after-refresh c is_it b session h = ground arith

-- ===== src/Server/Width/Life.antt =====
-- The words of src/uds_flash_pipeline.c, src/uds_periodic.c, src/uds_dynamic_did.c and
-- src/uds_clear_dtc.c over an event and a restart.
use zephyr_uds.Base.{
  ℕ, zero, suc, ◌<◌, ◌≡◌, refl, Bool, true, Bool-cases, inl, inr, and_both, List, [], ◌∷◌, ◌==◌,
  ltb, all, length, get_or, Buffer, copy, arith,
}
use zephyr_uds.Platform.{Config, Os, App}
use zephyr_uds.Flash
use zephyr_uds.Flash.{Flash, read_field}
use zephyr_uds.Base.{IsBytes}
use zephyr_uds.ClearDtc
use zephyr_uds.ClearDtc.{ClearDtc}
use zephyr_uds.DynamicDid
use zephyr_uds.DynamicDid.{DynamicDidMap}
use zephyr_uds.Periodic
use zephyr_uds.Periodic.{Periodic}
use zephyr_uds.Server.State.{Server}
use zephyr_uds.Server.Process.{service, process_request}
use zephyr_uds.Server.Machine
use zephyr_uds.Server.Machine.{
  Event, received, clear_dtc_runs, periodic_runs, Moment, happens, restarts, power_on, restart,
  step, receive, moment, live,
}
use zephyr_uds.Server.Width.{IsPeriodic, IsWithin, serve-IsWithin}

abbrev pub is_byte : ℕ → Bool
is_byte b = ltb b 256

get_or-lt : (xs : List ℕ) (j d : ℕ) → all is_byte xs ≡ true → d < 256 → get_or xs j d < 256
get_or-lt [] j d h e = e
get_or-lt (x ∷ xs) zero d h e = ground (arith, and_both (is_byte x) (all is_byte xs) h)
get_or-lt (x ∷ xs) (suc j) d h e = get_or-lt xs j d (and_both (is_byte x) (all is_byte xs) h).1 e

copy-IsBytes :
    (buf : Buffer) (xs : List ℕ) → all is_byte xs ≡ true → IsBytes buf → IsBytes (copy buf 0 xs)
copy-IsBytes buf xs h k i = ground (arith, get_or-lt xs i (buf i) h (k i))

-- A message consists of bytes.
abbrev pub has_bytes : Event → Bool
has_bytes (received a bytes) = all is_byte bytes
has_bytes _ = true

abbrev pub in_bytes : Moment → Bool
in_bytes (happens e) = has_bytes e
in_bytes (restarts stack data_len) = true

pub sample_all-list :
    {W : Type 0} (app : App W) (rounds i : ℕ) (w : W) (p : Periodic)
    → let p' = (Periodic.sample_all app rounds i w p).1 in
      (p'.active_did_count ≡ p.active_did_count)
      × (p'.active_periodic_dids ≡ p.active_periodic_dids)
unfolding Periodic.sample_all Periodic.sample
sample_all-list app zero i w p = (refl, refl)
sample_all-list app (suc rounds) i w p =
    let (w', p', sent) = Periodic.sample app i w p in sample_all-list app rounds (suc i) w' p'

thread_round-IsPeriodic :
    {W : Type 0} (app : App W) (w : W) (p : Periodic)
    → IsPeriodic p
    → IsPeriodic (Periodic.thread_round app w p).1
unfolding Periodic.thread_round
thread_round-IsPeriodic app w p k =
    let (count, dids) = sample_all-list app p.active_did_count 0 w p in
    (ground arith, λ i. ground (arith, k.1 i))

module _ {W : Type 0} (c : Config) (os : Os W) (app : App W) where
  pub step-IsWithin :
      (s : Server W) (e : Event) → has_bytes e ≡ true → IsWithin s → IsWithin (step c os app s e).0
  unfolding step receive process_request
  step-IsWithin s (received a bytes) h k =
      let req = copy s.rx_buf 0 bytes in
      let all_bytes = copy-IsBytes s.rx_buf bytes h k.rx in
      let addressed = record s { rx_buf = req; current_msg_addressing = a } in
      let k' : IsWithin addressed = record {
        rx = all_bytes;
        flash = k.flash;
        periodic = k.periodic;
        dynamic = k.dynamic;
        clear = k.clear;
      } in
      let served =
        serve-IsWithin c os app (service (req 0)) a addressed req (length bytes) all_bytes k' in
      elim (Bool-cases (length bytes == 0)) [
        | inl nothing ↦ rw nothing (record {
          rx = all_bytes;
          flash = k.flash;
          periodic = k.periodic;
          dynamic = k.dynamic;
          clear = k.clear;
        })
        | inr some_bytes ↦ rw some_bytes served
      ]
  step-IsWithin s periodic_runs h k = record {
    rx = k.rx;
    flash = k.flash;
    periodic = thread_round-IsPeriodic app s.world s.periodic k.periodic;
    dynamic = k.dynamic;
    clear = k.clear;
  }
  step-IsWithin s clear_dtc_runs h k =
      unfold ClearDtc.worker in
      record {
        rx = k.rx;
        flash = k.flash;
        periodic = k.periodic;
        dynamic = k.dynamic;
        clear = k.clear;
      }
  step-IsWithin s _ h k = record {
    rx = k.rx;
    flash = k.flash;
    periodic = k.periodic;
    dynamic = k.dynamic;
    clear = k.clear;
  }

  power_on-IsWithin :
      (w : W) (stack : Buffer) (data_len : ℕ) → IsWithin (power_on c w stack data_len)
  unfolding power_on Flash.init Periodic.power_on DynamicDid.power_on ClearDtc.power_on
  power_on-IsWithin w stack data_len = record {
    rx = λ i. omega arith;
    flash = ground arith;
    periodic = (omega arith, λ i. omega arith);
    dynamic = ground arith;
    clear = ground arith;
  }

  pub restart-IsWithin :
      (s : Server W) (stack : Buffer) (data_len : ℕ) → IsWithin (restart c os app s stack data_len)
  unfolding restart Machine.init Flash.init
  restart-IsWithin s stack data_len =
      let k = power_on-IsWithin s.world stack data_len in
      record {
        rx = ground (arith, k.rx);
        flash = ground arith;
        periodic = ground (arith, k.periodic);
        dynamic = ground arith;
        clear = ground arith;
      }

-- ===== src/Server/Thread.antt =====
-- uds_rx_thread of src/uds_server.c: the two links that it binds, and its loop.
use mathlib.Core.List.{append_assoc}
use zephyr_uds.Base.{
  ℕ, ◌≡◌, refl, ap, sym, Bool, true, false, ◌&&◌, Option, none, some, List, [], ◌∷◌, ◌++◌,
  if◌then◌else◌,
}
use zephyr_uds.Types.{Addressing, physical, functional, Out}
use zephyr_uds.Platform.{Config, Os, App}
use zephyr_uds.Server.State.{Server}
use zephyr_uds.Server.Machine.{Event, received, poll, rx_round, step, run}

-- isotp_msg_id and isotp_fc_opts of Zephyr.
pub record MsgId : Type 0 where
  pub std_id : ℕ
  pub flags : ℕ
  pub ext_addr : ℕ
  pub dl : ℕ

pub record FcOpts : Type 0 where
  pub bs : ℕ
  pub stmin : ℕ

abbrev pub fc_opts : FcOpts
fc_opts = record { bs = 8; stmin = 10 }

abbrev pub rx_link : Config → MsgId
rx_link c = record { std_id = c.can_rx_id; flags = 0; ext_addr = 0; dl = 8 }

abbrev pub tx_link : Config → MsgId
tx_link c = record { std_id = c.can_tx_id; flags = 0; ext_addr = 0; dl = 8 }

abbrev pub func_rx_link : Config → MsgId
func_rx_link c = record { std_id = c.can_func_rx_id; flags = 0; ext_addr = 0; dl = 8 }

-- A call of isotp_bind, for the context of an addressing.
pub record Binding : Type 0 where
  pub context : Addressing
  pub receives : MsgId
  pub sends : MsgId
  pub opts : FcOpts

abbrev pub bind_physical : Config → Binding
bind_physical c = record {
  context = physical;
  receives = rx_link c;
  sends = tx_link c;
  opts = fc_opts;
}

abbrev pub bind_functional : Config → Binding
bind_functional c = record {
  context = functional;
  receives = func_rx_link c;
  sends = tx_link c;
  opts = fc_opts;
}

-- What the two calls of isotp_recv in each round give, `none` for an error.
abbrev pub Rounds : Type 0
Rounds = List (Option (List ℕ) × Option (List ℕ))

module _ {W : Type 0} (c : Config) (os : Os W) (app : App W) where
  -- The loop, for as many rounds as there are: it does not end.
  unfoldable pub rx_loop : Server W → Rounds → Server W × List Out
  rx_loop s [] = (s, [])
  rx_loop s ((phys, func) ∷ rest) =
      let (s', calls) = rx_round c os app s phys func in
      let (s'', later) = rx_loop s' rest in (s'', calls ++ later)

  -- The thread, for what the two calls of isotp_bind give: it ends at the first that fails.
  unfoldable pub rx_thread :
      (bound func_bound : Bool) → Server W → Rounds → List Binding × Server W × List Out
  unfolding rx_loop
  rx_thread false func_bound s rounds = (bind_physical c ∷ [], s, [])
  rx_thread true false s rounds = (bind_physical c ∷ bind_functional c ∷ [], s, [])
  rx_thread true true s rounds =
      let (s', calls) = rx_loop s rounds in (bind_physical c ∷ bind_functional c ∷ [], s', calls)

  -- The messages of the rounds as events of the machine, in their order.
  abbrev pub arrival : Addressing → Option (List ℕ) → List Event
  arrival a none = []
  arrival a (some bytes) = received a bytes ∷ []

  abbrev pub arrivals : Rounds → List Event
  arrivals [] = []
  arrivals ((phys, func) ∷ rest) =
      arrival physical phys ++ (arrival functional func ++ arrivals rest)

  poll-run :
      (a : Addressing) (s : Server W) (got : Option (List ℕ)) (later : List Event)
      → run c os app s (arrival a got ++ later) ≡ (
          let (s', calls) = poll c os app s a got in
          let (s'', rest) = run c os app s' later in (s'', calls ++ rest))
  unfolding run step poll
  poll-run a s none later = refl
  poll-run a s (some bytes) later = refl

  rx_loop-run :
      (s : Server W) (rounds : Rounds) → rx_loop s rounds ≡ run c os app s (arrivals rounds)
  unfolding rx_loop rx_round run
  rx_loop-run s [] = refl
  rx_loop-run s ((phys, func) ∷ rest) =
      let (s', calls) = poll c os app s physical phys in
      let (s'', calls') = poll c os app s' functional func in
      let later = arrivals rest in
      rw
        (
          poll-run physical s phys (arrival functional func ++ later),
          poll-run functional s' func later,
          sym (rx_loop-run s'' rest),
        )
        (ap (λ all_calls. ((rx_loop s'' rest).0, all_calls))
          (append_assoc calls calls' (rx_loop s'' rest).1))

  -- The thread is a history of the machine, of the messages in the order of the calls, and without
  -- both bindings it processes nothing.
  rx_thread-run :
      (bound func_bound : Bool) (s : Server W) (rounds : Rounds)
      → let (bindings, s', calls) = rx_thread bound func_bound s rounds in
        (s', calls) ≡ run c os app s (if bound && func_bound then arrivals rounds else [])
  unfolding rx_thread run
  rx_thread-run false func_bound s rounds = refl
  rx_thread-run true false s rounds = refl
  rx_thread-run true true s rounds = rx_loop-run s rounds

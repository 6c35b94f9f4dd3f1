-- ===== src/Server/Frames/Life.antt =====
-- src/uds_server.c: no frame over the life of a controller is longer than the buffer it is sent
-- from.
use mathlib.Core.List.{flatten}
use zephyr_uds.Base.{
  ℕ, zero, suc, ◌+◌, ◌≤◌, ◌≡◌, refl, Bool, true, Bool-cases, inl, inr, and_both, List, [], ◌∷◌,
  ◌==◌, all, all-append, length, length-slice, ◌&&◌, copy, store, arith,
}
use zephyr_uds.Types.{Addressing, SessionType, default_session}
use zephyr_uds.Platform.{Config, IsConfig, Os, App, stored}
use zephyr_uds.Session
use zephyr_uds.Routine
use zephyr_uds.ClearDtc
use zephyr_uds.Periodic
use zephyr_uds.Periodic.{Periodic}
use zephyr_uds.Reset
use zephyr_uds.Server.State.{Server, perform_all}
use zephyr_uds.Server.Process.{service, serve, process_request}
use zephyr_uds.Server.Machine.{
  Event, received, clear_dtc_runs, routine_runs, periodic_runs, nrc78_expires,
  routine_nrc78_expires, reset_expires, step, receive,
}
use zephyr_uds.Server.Width.{IsWithin}
use zephyr_uds.Server.Machine.{Moment, happens, restarts, restart}
use zephyr_uds.Server.Width.Life.{has_bytes, in_bytes, step-IsWithin, restart-IsWithin}
use zephyr_uds.Server.Frames.{fits, fits-perform_all, Roomy}
use zephyr_uds.Server.Frames.All.{serve-fits}

module _ {W : Type 0} (c : Config) (os : Os W) (app : App W) where
  -- The size of the buffer that the frames of an event are sent from: `periodic_tx_buf` of the
  -- sampling thread, and no more than `uds_tx_buf`.
  abbrev pub room_of : Event → ℕ
  room_of periodic_runs = 16
  room_of _ = c.buff_size

  refresh-fits :
      (room : ℕ) (session : SessionType) → all (fits room) (Session.refresh_timer c session) ≡ true
  unfolding Session.refresh_timer
  refresh-fits room default_session = refl
  refresh-fits room _ = refl

  message-fits :
      IsConfig c
      → Roomy app
      → 258 ≤ c.buff_size
      → (s : Server W) (a : Addressing) (bytes : List ℕ) → IsWithin s
      → all (fits c.buff_size) (receive c os app s a bytes).1 ≡ true
  unfolding receive process_request
  message-fits v h room s a bytes k =
      let req = copy s.rx_buf 0 bytes in
      let addressed = record s { rx_buf = req; current_msg_addressing = a } in
      let calls = (serve c os app (service (req 0)) a addressed req (length bytes)).1 in
      elim (Bool-cases (length bytes == 0)) [
        | inl nothing ↦ rw nothing refl
        | inr some_bytes ↦ rw some_bytes (
            all-append (fits c.buff_size) (Session.refresh_timer c s.session) (perform_all a calls)
              (refresh-fits c.buff_size s.session)
              (fits-perform_all c.buff_size a calls (omega (arith, room)) (
                serve-fits c os app v h room (service (req 0)) a addressed req (length bytes)
                  k.dynamic)))
      ]

  sample_all-fits :
      Roomy app
      → (rounds i : ℕ) (w : W) (p : Periodic)
      → all (fits 16) (flatten (Periodic.sample_all app rounds i w p).2) ≡ true
  unfolding Periodic.sample_all flatten
  sample_all-fits h zero i w p = refl
  sample_all-fits h (suc rounds) i w p =
      let (w', p', sent) = Periodic.sample app i w p in
      let did = p.active_periodic_dids i in
      let (w'', reading) = app.get_periodic_did w did in
      let now : all (fits 16) sent ≡ true =
        unfold Periodic.sample in
        ground (
          arith,
          h.periodic_did w did p.data_len,
          length-slice 0 (2 + stored reading.len_out p.data_len)
              (copy (store (store p.periodic_tx_buf 0 0x2A) 1 did) 2 reading.written),
        ) in
      all-append (fits 16) sent (flatten (Periodic.sample_all app rounds (suc i) w' p').2) now
        (sample_all-fits h rounds (suc i) w' p')

  thread_round-fits :
      Roomy app
      → (w : W) (p : Periodic) → all (fits 16) (flatten (Periodic.thread_round app w p).2) ≡ true
  unfolding Periodic.thread_round flatten
  thread_round-fits h w p = ground (arith, sample_all-fits h p.active_did_count 0 w p)

  step-fits :
      IsConfig c
      → Roomy app
      → 258 ≤ c.buff_size
      → (s : Server W) (e : Event) → IsWithin s
      → all (fits (room_of e)) (step c os app s e).1 ≡ true
  unfolding step
  step-fits v h room s (received a bytes) k = message-fits v h room s a bytes k
  step-fits v h room s periodic_runs k =
      fits-perform_all 16 s.current_msg_addressing
        (flatten (Periodic.thread_round app s.world s.periodic).2) (omega arith)
        (thread_round-fits h s.world s.periodic)
  step-fits v h room s clear_dtc_runs k =
      fits-perform_all c.buff_size s.current_msg_addressing
        (ClearDtc.worker app s.world s.clear_dtc).2 (omega (arith, room))
        (unfold ClearDtc.worker in ground arith)
  step-fits v h room s routine_runs k =
      fits-perform_all c.buff_size s.current_msg_addressing (Routine.worker app s.world s.routine).2
        (omega (arith, room)) (unfold Routine.worker in ground arith)
  step-fits v h room s nrc78_expires k =
      fits-perform_all c.buff_size s.current_msg_addressing
        (ClearDtc.nrc78_timer_expiry s.clear_dtc) (omega (arith, room))
        (unfold ClearDtc.nrc78_timer_expiry in ground arith)
  step-fits v h room s routine_nrc78_expires k =
      fits-perform_all c.buff_size s.current_msg_addressing (Routine.nrc78_timer_expiry s.routine)
        (omega (arith, room)) (unfold Routine.nrc78_timer_expiry in ground arith)
  step-fits v h room s reset_expires k = unfold Reset.reset_timer_expiry in ground arith
  step-fits v h room s _ k = refl

  -- Whether all frames of a life fit.
  pub life_fits : Server W → List Moment → Bool
  life_fits s [] = true
  life_fits s (happens e ∷ rest) =
      let (s', calls) = step c os app s e in all (fits (room_of e)) calls && life_fits s' rest
  life_fits s (restarts stack data_len ∷ rest) = life_fits (restart c os app s stack data_len) rest

  -- Over any life of the controller, whose messages are any bytes, no frame is longer than the
  -- buffer it is sent from: the transmission buffer, if it has at least 258 bytes, and for the
  -- sampling thread its 16 bytes. The configuration is valid, the hooks give no more bytes than
  -- they have room for, and at first the statics were within their bounds.
  pub life_fits_buffers :
      IsConfig c
      → Roomy app
      → 258 ≤ c.buff_size
      → (s : Server W) (life : List Moment) → all in_bytes life ≡ true
      → IsWithin s
      → life_fits s life ≡ true
  unfolding life_fits
  life_fits_buffers v h room s [] bytes k = refl
  life_fits_buffers v h room s (happens e ∷ rest) bytes k =
      let (now, later) = and_both (has_bytes e) (all in_bytes rest) bytes in
      let s' = (step c os app s e).0 in
      rw (step-fits v h room s e k)
        (life_fits_buffers v h room s' rest later (step-IsWithin c os app s e now k))
  life_fits_buffers v h room s (restarts stack data_len ∷ rest) bytes k =
      life_fits_buffers v h room (restart c os app s stack data_len) rest bytes
        (restart-IsWithin c os app s stack data_len)

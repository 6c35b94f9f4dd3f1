-- ===== src/Server/State.antt =====
-- src/uds_server.c: the state of the whole server, and the two functions that send.
use zephyr_uds.Base.{
  u32, ℕ, ◌+◌, not, ◌&&◌, Option, none, some, List, [], ◌∷◌, ◌++◌, ltb, ◌==◌, if◌then◌else◌, Buffer,
  store, copy, slice,
}
use zephyr_uds.Types.{Addressing, physical, functional, SessionType, Reboot, Out, send, nrc}
use zephyr_uds.Types.Nrc
use zephyr_uds.Platform.{Config, Reply}
use zephyr_uds.Security.{Security}
use zephyr_uds.Flash.{Flash}
use zephyr_uds.Routine.{Routine}
use zephyr_uds.ClearDtc.{ClearDtc}
use zephyr_uds.DynamicDid.{DynamicDidMap}
use zephyr_uds.Periodic.{Periodic}

-- The statics of all files, beside the world.
pub record Server (W : Type 0) : Type 0 where
  pub world : W
  pub rx_buf : Buffer
  pub tx_buf : Buffer
  pub current_msg_addressing : Addressing
  pub session : SessionType
  pub security : Security
  pub flash : Flash
  pub routine : Routine
  pub clear_dtc : ClearDtc
  pub chosen_reset_type : Reboot
  pub dyn_map : DynamicDidMap
  pub periodic : Periodic

-- uds_send_nrc. The frame of uds_send_response is `send`.
unfoldable pub send_nrc : Addressing → ℕ → ℕ → List Out
send_nrc physical sid code = send (0x7F ∷ sid ∷ code ∷ []) ∷ []
send_nrc functional sid code =
    if not (code == Nrc.response_pending) then [] else send (0x7F ∷ sid ∷ code ∷ []) ∷ []

-- A call of a handler, with uds_send_response and uds_send_nrc for its callbacks.
unfoldable pub perform : Addressing → Out → List Out
unfolding send_nrc
perform a (nrc sid code) = send_nrc a sid code
perform a o = o ∷ []

unfoldable pub perform_all : Addressing → List Out → List Out
unfolding perform
perform_all a [] = []
perform_all a (o ∷ os) = perform a o ++ perform_all a os

-- uds_trigger_event_response: the local `event_buf` holds `stack` before it is written, and
-- `none` is a NULL pointer. `len + 2` is computed in a size_t of 32 bits and wraps.
unfoldable pub trigger_event_response : Config → Buffer → ℕ → Option Buffer → ℕ → List Out
trigger_event_response c stack event_type payload len =
    let event_buf = store (store stack 0 0x86) 1 event_type in
    let filled : Buffer = elim payload [
      | none ↦ event_buf
      | some bytes ↦
          if ltb 0 len && ltb (u32 (len + 2)) c.buff_size
          then copy event_buf 2 (slice 0 len bytes)
          else event_buf
    ] in
    send (slice 0 (u32 (2 + len)) filled) ∷ []

module _ {W : Type 0} where
  -- The server after a handler that returns a reply.
  abbrev pub after_reply : Server W → Reply W → Server W
  after_reply s r = record s { world = r.world; tx_buf = r.tx_buf }

-- ===== src/Server/Programming/Acknowledged.antt =====
-- src/uds_flash_pipeline.c within src/uds_server.c: over any life, the flash holds the blocks that
-- were acknowledged.
use zephyr_uds.Base.{
  ℕ, ◌+◌, ◌^◌, ◌<◌, ◌≡◌, true, false, some, List, [], ◌∷◌, length, Buffer, slice, arith,
}
use zephyr_uds.Platform.{Config, Os, App}
use zephyr_uds.Flash
use zephyr_uds.Flash.{is_idle}
use zephyr_uds.Flash.Image.{Image}
use zephyr_uds.Server.State.{Server}
use zephyr_uds.Server.Machine.{
  Event, received, s3_expires, lockout_expires, clear_dtc_runs, routine_runs, periodic_runs, Moment,
  happens, restarts, power_on, restart, step, receive, moment, live,
}
use zephyr_uds.Server.Machine
use zephyr_uds.Server.Programming.{IsTarget}
use zephyr_uds.Server.Programming.Held.{image_after, Held, step-Held}

module _ {W : Type 0} (c : Config) (os : Os W) (app : App W) (memory : W → Buffer) where
  restart-Held :
      (image : Image) (s : Server W) (stack : Buffer) (data_len : ℕ)
      → Held c os app memory image (restart c os app s stack data_len)
  unfolding restart Machine.init power_on Flash.init
  restart-Held image s stack data_len bytes e busy fits = absurd (ground arith)

  -- The image that a tester keeps over a life, from the messages and the frames that answer them.
  unfoldable pub image_of : Image → Server W → List Moment → Image
  image_of image s [] = image
  image_of image s (happens e ∷ rest) =
      let (s', calls) = step c os app s e in image_of (image_after image e calls) s' rest
  image_of image s (restarts stack data_len ∷ rest) =
      image_of image (restart c os app s stack data_len) rest

  live-Held :
      IsTarget c os app memory
      → (image : Image) (s : Server W) (life : List Moment) → Held c os app memory image s
      → Held c os app memory (image_of image s life) (live c os app s life)
  unfolding live moment image_of
  live-Held laws image s [] held = held
  live-Held laws image s (happens e ∷ rest) held =
      let (s', calls) = step c os app s e in
      live-Held laws (image_after image e calls) s' rest
        (step-Held c os app memory laws image s e held)
  live-Held laws image s (restarts stack data_len ∷ rest) held =
      live-Held laws image (restart c os app s stack data_len) rest
        (restart-Held image s stack data_len)

  -- Over any life of the controller, of messages, expiries, work items and samples, with reboots and
  -- losses of power between any two of them, from an idle pipeline: while a download is under way in
  -- the end, the flash holds, from its address on, exactly the payloads of the blocks that were
  -- acknowledged since the last download request was, end to end in their order, and as many bytes
  -- are counted; blocks that are refused between them do not matter. No erasure was refused since,
  -- and the bytes end below 2 ^ 32. The hooks of a download write the flash as they are told, and
  -- all other hooks, the entropy source and the module's own storage leave it alone.
  pub flash_holds_acknowledged :
      IsTarget c os app memory
      → (s : Server W) (life : List Moment) (bytes : List ℕ) → is_idle s.flash.pipeline_state ≡ true
      → image_of (some []) s life ≡ some bytes
      → is_idle (live c os app s life).flash.pipeline_state ≡ false
      → (live c os app s life).flash.memory_address + length bytes < 2 ^ 32
      → let s' = live c os app s life in
        (s'.flash.bytes_received ≡ length bytes)
        × (slice s'.flash.memory_address (length bytes) (memory s'.world) ≡ bytes)
  flash_holds_acknowledged laws s life bytes free =
      live-Held laws (some []) s life (λ before e busy fits. absurd (ground arith)) bytes

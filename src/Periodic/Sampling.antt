-- ===== src/Periodic/Sampling.antt =====
-- src/uds_periodic.c: what the sampling thread sends, behind any requests.
use zephyr_uds.Base.{ℕ, ◌≤◌, ◌≡◌, ◌⊎◌, true, some, List, [], ◌∷◌, length, if◌then◌else◌, Buffer}
use zephyr_uds.Types.{Out, send}
use zephyr_uds.Platform.{App, ok}
use zephyr_uds.Periodic.{Periodic, handle}
use zephyr_uds.Periodic.Registry.{register}

-- The thread's state behind a series of requests, and the identifiers that they register.
pub served : Periodic → List (Buffer × ℕ) → Periodic
served p [] = p
served p ((req, len) ∷ rest) = served (handle p req len).0 rest

abbrev pub registry : List ℕ → List (Buffer × ℕ) → List ℕ
registry dids [] = dids
registry dids ((req, len) ∷ rest) = registry (register dids req len) rest

-- No more than the array holds, and nothing registered before a request.
abbrev pub Ready : Periodic → Type 0
Ready p = (p.active_did_count ≤ 5) × ((p.callback ≡ true) ⊎ (p.active_did_count ≡ 0))

module _ {W : Type 0} (app : App W) where
  -- The hook says how many bytes it wrote where it succeeds.
  abbrev pub Sized : Type 0
  Sized =
      (w : W) (did : ℕ)
      → let reading = (app.get_periodic_did w did).1 in
        ok reading.ret ≡ true → reading.len_out ≡ some (length reading.written)

  -- The identifiers sampled one after the other: a frame of 0x2A, the identifier and its data for
  -- each that the application gives, and none for the others.
  pub sampled : W → List ℕ → W × List (List Out)
  sampled w [] = (w, [])
  sampled w (did ∷ dids) =
      let (w', reading) = app.get_periodic_did w did in
      let (w'', later) = sampled w' dids in
      (w'', (if ok reading.ret then send (0x2A ∷ did ∷ reading.written) ∷ [] else []) ∷ later)

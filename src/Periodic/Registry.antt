-- ===== src/Periodic/Registry.antt =====
-- src/uds_periodic.c: the registered identifiers as a list.
use zephyr_uds.Base.{
  ℕ, ◌+◌, ◌≤◌, ◌<◌, ◌≡◌, ◌∙◌, ap₂, true, inl, inr, Bool-cases, ◌&&◌, List, [], ◌∷◌, ◌++◌, length,
  if◌then◌else◌, ltb, leb, u8, ◌==◌, Buffer, store, slice, slice-append, slice-ext, length-slice,
  arith,
}
use zephyr_uds.Periodic.{Periodic, handle}

-- The identifiers that are sampled, in their order.
abbrev pub registered : Periodic → List ℕ
registered p = slice 0 p.active_did_count p.active_periodic_dids

-- What a request makes of them.
abbrev pub register : List ℕ → Buffer → ℕ → List ℕ
register dids req len =
    if ltb len 3
    then dids
    else if req 1 == 0x04
    then []
    else if req 1 == 0x01 && ltb (length dids) 5
    then dids ++ req 2 ∷ []
    else dids

slice-store : (buf : Buffer) (n v : ℕ) → slice 0 (n + 1) (store buf n v) ≡ slice 0 n buf ++ v ∷ []
slice-store buf n v =
    slice-append 0 n 1 (store buf n v)
    ∙ ap₂ (λ xs x. xs ++ x ∷ []) (slice-ext 0 n (store buf n v) buf (λ j p q. ground arith))
        (ground arith)

wrap : (n : ℕ) → n < 5 → u8 (n + 1) ≡ n + 1
wrap n h = omega arith

-- On a list of at most five identifiers a request does what it does on the array: mode 0x01
-- appends its identifier if there is room, mode 0x04 removes all, and anything else leaves them;
-- there are never more than five, the callback is set, and no byte behind the array's five is
-- written.
pub handle_registers :
    (p : Periodic) (req : Buffer) (len j : ℕ)
    → p.active_did_count ≤ 5
    → 5 ≤ j
    → let p' = (handle p req len).0 in
      (registered p' ≡ register (registered p) req len)
      × (p'.active_did_count ≤ 5)
      × (p'.callback ≡ true)
      × (p'.active_periodic_dids j ≡ p.active_periodic_dids j)
unfolding handle
handle_registers p req len j h k =
    let count = p.active_did_count in
    let dids = p.active_periodic_dids in
    let size : length (registered p) ≡ count = length-slice 0 count dids in
    let added = slice-store dids count (req 2) in
    (
      elim (Bool-cases (leb 5 count)) [
        | inl full ↦ ground (arith, size)
        | inr room ↦ rw (wrap count (ground arith)) (ground (arith, size, added))
      ],
      ground arith,
      ground arith,
      ground arith,
    )

-- ===== src/DynamicDid.antt =====
-- src/uds_dynamic_did.c: DynamicallyDefineDataIdentifier (0x2C), and the reading of such an
-- identifier for service 0x22.
pub mod Reading
use zephyr_uds.Base.{
  ℕ, zero, suc, ◌+◌, not, ◌||◌, List, [], ◌∷◌, ltb, ◌==◌, if◌then◌else◌, be16, Buffer, copy, slice,
}
use zephyr_uds.Types.{Ret, success, failure, enoent, Out, send, nrc}
use zephyr_uds.Types.Nrc
use zephyr_uds.Platform.{Os, App, ok}

-- dynamic_entry_t
pub record DynamicEntry : Type 0 where
  pub source_did : ℕ
  pub position : ℕ
  pub length : ℕ

-- dynamic_did_map_t
pub record DynamicDidMap : Type 0 where
  pub dyn_did : ℕ
  pub entries : ℕ → DynamicEntry
  pub entry_count : ℕ

unfoldable pub power_on : DynamicDidMap
power_on = record {
  dyn_did = 0;
  entries = λ i. record { source_did = 0; position = 0; length = 0 };
  entry_count = 0;
}

-- uds_handle_define_dynamic_did
unfoldable pub define : DynamicDidMap → Buffer → ℕ → DynamicDidMap × List Out
define m req len =
    if ltb len 9
    then (m, nrc (req 0) Nrc.incorrect_length_or_invalid_format ∷ [])
    else if not (req 1 == 0x01)
    then (m, nrc (req 0) Nrc.sub_function_not_supported ∷ [])
    else (
      record {
        dyn_did = be16 (req 2) (req 3);
        entries = λ i.
            if i == 0
            then record { source_did = be16 (req 4) (req 5); position = req 6; length = req 7 }
            else m.entries i;
        entry_count = 1;
      },
      send (0x6C ∷ req 1 ∷ req 2 ∷ req 3 ∷ []) ∷ [],
    )

-- The variables of the loop: the world, `temp_src_buf` with the byte before it (so the array's
-- element k is at k + 1), the buffer that is filled, and `total_len`.
pub record Filling (W : Type 0) : Type 0 where
  pub world : W
  pub source : Buffer
  pub filled : Buffer
  pub total_len : ℕ

module _ {W : Type 0} (app : App W) (base : ℕ) where
  -- One round; `buf_out` is the buffer from index `base` on.
  unfoldable pub copy_entry : DynamicEntry → Filling W → Filling W
  copy_entry e t =
      let (w', reading) = app.read_did t.world e.source_did 64 in
      let source' = copy t.source 1 reading.written in
      if ok reading.ret
      then record {
        world = w';
        source = source';
        filled = copy t.filled (base + t.total_len) (slice e.position e.length source');
        total_len = t.total_len + e.length;
      }
      else record t { world = w'; source = source' }

  unfoldable pub copy_entries : DynamicDidMap → ℕ → ℕ → Filling W → Filling W
  unfolding copy_entry
  copy_entries m zero i t = t
  copy_entries m (suc rounds) i t = copy_entries m rounds (suc i) (copy_entry (m.entries i) t)

module _ {W : Type 0} (os : Os W) (app : App W) where
  -- uds_read_dynamic_did_payload: what it returns, the world, the buffer, and `*len_out`, which
  -- held `len`.
  unfoldable pub read_payload : W → DynamicDidMap → ℕ → Buffer → ℕ → ℕ → Ret × W × Buffer × ℕ
  unfolding copy_entries
  read_payload w m did buf base len =
      if not (m.dyn_did == did) || m.entry_count == 0
      then (failure enoent, w, buf, len)
      else let start : Filling W = record {
        world = w;
        source = os.stack w;
        filled = buf;
        total_len = 0;
      } in
        let t = copy_entries app base m m.entry_count 0 start in
        (success, t.world, t.filled, t.total_len)

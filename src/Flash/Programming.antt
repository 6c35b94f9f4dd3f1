-- ===== src/Flash/Programming.antt =====
-- What src/uds_flash_pipeline.c promises of the flash, apart from how the server comes to it: the
-- moves of a device that is programmed.
use zephyr_uds.Base.{
  ℕ, ◌+◌, ◌≤◌, ◌<◌, ◌≡◌, ◌≢◌, ◌⊎◌, true, false, List, length, u8, u32, Buffer, copy, arith,
}
use zephyr_uds.Types.{
  SessionType, default_session, SecurityStatus, unlocked, seed_requested, success,
}
use zephyr_uds.Platform.{App}
use zephyr_uds.Flash.{Flash, idle, download_approved, transferring, is_idle, is_transferring, init}

-- The device: who may program it, how far the pipeline is, and the flash.
pub record Device : Type 0 where
  pub session : SessionType
  pub access : SecurityStatus
  pub flash : Flash
  pub memory : Buffer

-- Outside that many bytes from the address on, the second memory is the first.
abbrev pub KeptOutside : ℕ → ℕ → Buffer → Buffer → Type 0
KeptOutside address n m m' = (i : ℕ) → (i < address) ⊎ (address + n ≤ i) → m' i ≡ m i

-- The pipeline behind an accepted request, and behind a block of that many bytes.
abbrev pub opened : ℕ → ℕ → Flash
opened address size = record {
  pipeline_state = download_approved;
  memory_address = address;
  memory_size = size;
  bytes_received = 0;
  expected_block_counter = 1;
}

abbrev pub advanced : Flash → ℕ → Flash
advanced f n = record f {
  bytes_received = u32 (f.bytes_received + n);
  expected_block_counter = u8 (f.expected_block_counter + 1);
  pipeline_state = transferring;
}

abbrev pub write_offset : Flash → ℕ
write_offset f = u32 (f.memory_address + f.bytes_received)

abbrev pub MayProgram : Device → Type 0
MayProgram a = (a.session ≢ default_session) × (a.access ≡ unlocked)

-- What a moment of a life asks of the device: a download of an area, a block with its counter, the
-- end of a transfer, a start, or something else.
pub data Act : Type 0 where
  download : ℕ → ℕ → Act
  block : ℕ → List ℕ → Act
  leave restart other : Act

-- Access is opened behind a seed alone, and no change of session leaves it open.
abbrev pub Opens : Device → Device → Type 0
Opens a b =
    b.access ≡ unlocked
    → (b.session ≡ a.session) × ((a.access ≡ unlocked) ⊎ (a.access ≡ seed_requested))

-- The move of an act. An erasure needs a session other than the default one and unlocked access,
-- and keeps what lies outside the area that is announced, whether it succeeds or not; behind a
-- refused one only address and size change. A block needs a download under way and, to be written,
-- the counter that is due: it stands behind those before, or it is refused, and nothing outside its
-- place changes. Each of these may be turned down, and then nothing changes, the session and access
-- included. Other acts leave pipeline and memory, and a start leaves the pipeline idle, the default
-- session and access closed.
pub data Program : Act → Device → Device → Type 0 where
  keep :
      {act : Act} {a b : Device}
      → b.flash ≡ a.flash
      → b.memory ≡ a.memory
      → b.session ≡ a.session
      → b.access ≡ a.access
      → Program act a b
  settle : {a b : Device} → b.flash ≡ a.flash → b.memory ≡ a.memory → Opens a b → Program other a b
  open_download :
      {address size : ℕ} {a b : Device}
      → MayProgram a
      → KeptOutside address size a.memory b.memory
      → b.flash ≡ opened address size
      → b.session ≡ a.session
      → b.access ≡ a.access
      → Program (download address size) a b
  refuse_download :
      {address size : ℕ} {a b : Device}
      → MayProgram a
      → KeptOutside address size a.memory b.memory
      → b.flash ≡ record a.flash { memory_address = address; memory_size = size }
      → b.session ≡ a.session
      → b.access ≡ a.access
      → Program (download address size) a b
  write_block :
      {counter : ℕ} {payload : List ℕ} {a b : Device}
      → is_idle a.flash.pipeline_state ≡ false
      → counter ≡ a.flash.expected_block_counter
      → 1 ≤ length payload
      → b.memory ≡ copy a.memory (write_offset a.flash) payload
      → b.flash ≡ advanced a.flash (length payload)
      → b.session ≡ a.session
      → b.access ≡ a.access
      → Program (block counter payload) a b
  refuse_block :
      {counter : ℕ} {payload : List ℕ} {a b : Device}
      → is_idle a.flash.pipeline_state ≡ false
      → counter ≡ a.flash.expected_block_counter
      → KeptOutside (write_offset a.flash) (length payload) a.memory b.memory
      → b.flash ≡ a.flash
      → b.session ≡ a.session
      → b.access ≡ a.access
      → Program (block counter payload) a b
  close :
      {a b : Device}
      → is_transferring a.flash.pipeline_state ≡ true
      → b.memory ≡ a.memory
      → b.flash ≡ record a.flash { pipeline_state = idle }
      → b.session ≡ a.session
      → b.access ≡ a.access
      → Program leave a b
  start :
      {a b : Device}
      → b.memory ≡ a.memory
      → b.flash ≡ init
      → b.session ≡ default_session
      → b.access ≢ unlocked
      → Program restart a b

-- From an idle pipeline without access, a move leaves the memory, and the pipeline idle.
pub Program-closed :
    (act : Act) (a b : Device)
    → Program act a b
    → is_idle a.flash.pipeline_state ≡ true
    → a.access ≢ unlocked
    → (b.memory ≡ a.memory) × (is_idle b.flash.pipeline_state ≡ true)
unfolding init
Program-closed act a b (keep same kept s t) free closed = (kept, ground arith)
Program-closed act a b (settle same kept opens) free closed = (kept, ground arith)
Program-closed act a b (open_download may kept opens s t) free closed = absurd (closed may.1)
Program-closed act a b (refuse_download may kept opens s t) free closed = absurd (closed may.1)
Program-closed act a b (write_block busy due some_bytes wrote more s t) free closed = ground arith
Program-closed act a b (refuse_block busy due kept same s t) free closed = ground arith
Program-closed act a b (close busy kept same s t) free closed = (kept, ground arith)
Program-closed act a b (start kept same s t) free closed = (kept, ground arith)

module _ {W : Type 0} (app : App W) (memory : W → Buffer) where
  -- The two hooks of a download stay within what they are told, and a block that is written is
  -- there.
  pub record WritesFlash : Type 0 where
    pub erases :
        (w : W) (address size : ℕ)
        → KeptOutside address size (memory w) (memory (app.flash_erase_target w address size).0)
    pub writes :
        (w : W) (offset : ℕ) (bytes : List ℕ)
        → KeptOutside offset
            (length bytes)
            (memory w)
            (memory (app.flash_write_block w offset bytes).0)
    pub written :
        (w : W) (offset : ℕ) (bytes : List ℕ)
        → (app.flash_write_block w offset bytes).1 ≡ success
        → memory (app.flash_write_block w offset bytes).0 ≡ copy (memory w) offset bytes

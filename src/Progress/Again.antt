-- ===== src/Progress/Again.antt =====
-- A position that `cn_progress_store_load` of `src/progress/progress_store.c` gives can be saved.
use crossnook.Base.{
  IsBytes, ℕ, ◌+◌, ◌≡◌, ap, ◌∙◌, sym, arith, Bool, true, not, ◌||◌, some, passed, List, drop, ltb,
  length, length-take, length-drop, Text,
}
use crossnook.Sync.Types.{ProgressResult, Position}
use crossnook.Progress.Record.{
  header_bytes, crc_bytes, token_bytes, position_max, position_ok, read_record, read_u32be, regular,
  read_file, load, Disk, save,
}
use crossnook.Progress.Canonical.{position_ok-checked}
use crossnook.Progress.Unique.{header_read, lengths_read, position_read, read_record_unique}

read_record-position_ok :
    (malloc : ℕ → Bool) (token : Text) (bytes : List ℕ) (position : Position)
    → read_record malloc token bytes ≡ (ProgressResult.ok, some position)
    → position_ok position ≡ true
read_record-position_ok malloc token bytes position h =
    let (m, v, h1) = header_read malloc token bytes position h in
    let (sizes, whole, crc, h2) = lengths_read malloc token _ _ _ bytes position h1 in
    let (il, t, l, p, slash, utf8, range) = position_read malloc token _ _ _ bytes position h2 in
    let i = read_u32be (drop 12 bytes) in
    let k = read_u32be (drop 16 bytes) in
    let k_length : k ≡ length position.location =
      sym (length-take k (drop (24 + i) bytes) (omega (arith, whole, length-drop (24 + i) bytes)))
      ∙ ap length l in
    position_ok-checked position (ground (arith, k_length, sizes)) (ground (arith, k_length, sizes))
      slash utf8 range

-- What a load has read.
pub load-read :
    (malloc : ℕ → Bool) (token : Text) (size : ℕ) (bytes : List ℕ) (closes : Bool)
    (position : Position)
    → load malloc token (regular size (some bytes) closes) ≡ (ProgressResult.ok, some position)
    → read_record malloc token bytes ≡ (ProgressResult.ok, some position)
unfolding load read_file
load-read malloc token size bytes closes position h =
    let (sized, h1) =
      passed (ltb size 12 || ltb (header_bytes + token_bytes + position_max + crc_bytes) size)
        ProgressResult.corrupt _ position h in
    let (memory, h2) = passed (not (malloc size)) ProgressResult.no_memory _ position h1 in
    let (closed, h3) = passed (not closes) ProgressResult.io_error _ position h2 in h3

-- A disk on which every call succeeds.
abbrev pub sound_disk : Disk
sound_disk = record {
  data_made = true;
  path_made = true;
  temporary_made = true;
  unlinked = true;
  created = true;
  written = true;
  synced = true;
  closed = true;
  renamed = true;
}

-- A position that a load has read can be saved, and a save in which every call succeeds writes
-- back exactly the bytes that were read.
pub save-load :
    (malloc : ℕ → Bool) (token : Text) (size : ℕ) (bytes : List ℕ) (closes : Bool)
    (position : Position)
    → IsBytes bytes
    → load malloc token (regular size (some bytes) closes) ≡ (ProgressResult.ok, some position)
    → save sound_disk token position ≡ (ProgressResult.ok, some bytes)
unfolding save
save-load malloc token size bytes closes position b h =
    let read = load-read malloc token size bytes closes position h in
    rw (read_record-position_ok malloc token bytes position read) (
      ap (λ xs. (ProgressResult.ok, some xs))
        (sym (read_record_unique malloc token bytes position b read)))

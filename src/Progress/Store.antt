-- ===== src/Progress/Store.antt =====
-- What `cn_progress_store_save` of `src/progress/progress_store.c` has written,
-- `cn_progress_store_load` loads.
use crossnook.Base.{
  ℕ, ◌+◌, ◌<◌, ◌≡◌, ap, ◌∙◌, sym, arith, Bool, true, false, not, ◌||◌, some, some-injective, passed,
  List, ltb, length, Text,
}
use crossnook.Sync.Types.{ProgressResult, Position}
use crossnook.Progress.Record.{
  header_bytes, crc_bytes, token_bytes, position_max, record_of, position_ok, read_record, regular,
  read_file, load, Disk, save,
}
use crossnook.Progress.Canonical.{read_record-record_of, length-record, position_ok-parts}

pub save-ok :
    (disk : Disk) (token : Text) (position : Position) (bytes : List ℕ)
    → save disk token position ≡ (ProgressResult.ok, some bytes)
    → (position_ok position ≡ true) × (bytes ≡ record_of token position)
unfolding save
save-ok disk token position bytes h =
    let (checked, h1) = passed (not (position_ok position)) ProgressResult.invalid _ bytes h in
    let (memory, h2) =
      passed (not disk.data_made || (not disk.path_made || not disk.temporary_made))
        ProgressResult.no_memory _ bytes h1 in
    let (files, h3) =
      passed
        (not disk.unlinked
          || (not disk.created
              || (not disk.written || (not disk.synced || (not disk.closed || not disk.renamed)))))
        ProgressResult.io_error _ bytes h2 in
    (ground arith, sym (some-injective (ap (λ r. r.1) h3)))

-- With memory, and a token of 1 to 24 bytes, what a save that returned ok wrote is loaded, from a
-- file that reads and closes, as the position that was saved.
pub load-save :
    (malloc : ℕ → Bool) (disk : Disk) (token : Text) (position : Position) (bytes : List ℕ)
    → ((size : ℕ) → malloc size ≡ true)
    → 0 < length token
    → length token < token_bytes
    → save disk token position ≡ (ProgressResult.ok, some bytes)
    → load malloc token (regular (length bytes) (some bytes) true)
      ≡ (ProgressResult.ok, some position)
unfolding load read_file
load-save malloc disk token position bytes room lo hi h =
    let (ok, written) = save-ok disk token position bytes h in
    let (l1, l2, slash, utf8, range) = position_ok-parts position ok in
    let size : length bytes ≡ 28 + length token + length position.location =
      ap length written ∙ length-record token position in
    let fits : (ltb (length bytes) 12
          || ltb (header_bytes + token_bytes + position_max + crc_bytes) (length bytes))
        ≡ false =
      ground arith in
    rw (fits, room (length bytes))
      (ap (read_record malloc token) written
        ∙ read_record-record_of token position malloc (room (length position.location + 1)) ok lo
            hi)

-- ===== src/Examples/Stores.antt =====
-- A record that is saved and loaded, on a disk where every call succeeds.
use crossnook.Base.{
  IsBytes, ℕ, ◌≡◌, take, refl, arith, true, some, List, [], ◌∷◌, ltb, all, length, Text, codes,
  scan_end,
}
use crossnook.Sync.Types.{ProgressResult, Position}
use crossnook.Utf8.{scan_fuel}
use crossnook.Utf8.Progress.{utf8_valid, sequence}
use crossnook.Progress.Record.{
  record_of, position_ok, bounded_length, regular, load, save, progress_crc32, crc_from,
}
use crossnook.Progress.Canonical.{read_record-record_of}
use crossnook.Progress.Unique.{read_record_unique}
use crossnook.Progress.Store.{load-save}
use crossnook.Progress.Cut.{load-take}
use crossnook.Progress.Again.{sound_disk, save-load}

abbrev stored_token : Text
stored_token = codes "path-v1-0123456789abcdef"

abbrev stored_position : Position
stored_position = record { location = codes "/body/p[3]"; progress_10000 = some 2500 }

stored_ok : position_ok stored_position ≡ true
unfolding position_ok bounded_length scan_end utf8_valid scan_fuel sequence
stored_ok = refl

stored_saved :
    save sound_disk stored_token stored_position
    ≡ (ProgressResult.ok, some (record_of stored_token stored_position))
unfolding save
stored_saved = rw stored_ok refl

load-save_example :
    load
      (λ size. true)
      stored_token
      (regular
        (length (record_of stored_token stored_position))
        (some (record_of stored_token stored_position))
        true)
    ≡ (ProgressResult.ok, some stored_position)
load-save_example =
    load-save (λ size. true) sound_disk stored_token stored_position
      (record_of stored_token stored_position) (λ size. refl) (omega arith) (omega arith)
      stored_saved

below_all-IsBytes : (xs : List ℕ) → all (λ c. ltb c 256) xs ≡ true → IsBytes xs
below_all-IsBytes [] h = tt
below_all-IsBytes (x ∷ xs) h = (ground arith, below_all-IsBytes xs (ground arith))

stored-IsBytes : IsBytes (record_of stored_token stored_position)
unfolding record_of progress_crc32 crc_from
stored-IsBytes = below_all-IsBytes (record_of stored_token stored_position) refl

read_record_unique_example :
    record_of stored_token stored_position ≡ record_of stored_token stored_position
read_record_unique_example =
    read_record_unique (λ size. true) stored_token (record_of stored_token stored_position)
      stored_position stored-IsBytes
      (read_record-record_of stored_token stored_position (λ size. true) refl stored_ok
        (omega arith) (omega arith))

save-load_example :
    save sound_disk stored_token stored_position
    ≡ (ProgressResult.ok, some (record_of stored_token stored_position))
save-load_example =
    save-load (λ size. true) stored_token (length (record_of stored_token stored_position))
      (record_of stored_token stored_position) true stored_position stored-IsBytes
      (load-save (λ size. true) sound_disk stored_token stored_position
        (record_of stored_token stored_position) (λ size. refl) (omega arith) (omega arith)
        stored_saved)

load-take_example : ¬ (
    load
      (λ size. true)
      stored_token
      (regular 40 (some (take 40 (record_of stored_token stored_position))) true)
    ≡ (ProgressResult.ok, some stored_position))
unfolding record_of
load-take_example =
    load-take (λ size. true) sound_disk stored_token stored_position
      (record_of stored_token stored_position) 40 40 true stored_position (omega arith)
      (omega arith) stored_saved (omega arith)

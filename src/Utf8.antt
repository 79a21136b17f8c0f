-- ===== src/Utf8.antt =====
-- The UTF-8 code of the program: `utf8_valid` of `src/sync/kosync.c` and of `src/progress/progress_store.c`,
-- the device identifier check of `src/sync/sync_controller.c`, the device name check of
-- `src/settings/settings_store.c` and the encoder of `src/sync/kosync.c`. A text is the list of its bytes,
-- and a loop over it is `scan_text`: its body takes the byte at hand and what follows, and hands
-- back what is left, or nothing for `return 0`. With each sequence goes the value it decoded.
pub mod Bytes
pub mod Reference
pub mod Kosync
pub mod Encode
pub mod Scan
pub mod Progress
pub mod Agree
pub mod Header
pub mod DeviceId
pub mod DeviceName
use crossnook.Base.{ℕ, zero, suc, ◌+◌, Bool, true, false, Option, none, some, List, [], ◌∷◌, length}

-- `while (i < length)` around a body that consumes at least a byte, so the length is fuel enough.
unfoldable pub scan_fuel : (ℕ → List ℕ → Option (ℕ × List ℕ)) → ℕ → List ℕ → Bool
scan_fuel body n [] = true
scan_fuel body zero (c ∷ cs) = false
scan_fuel body (suc n) (c ∷ cs) = elim (body c cs) [
  | none ↦ false
  | some (v, rest) ↦ scan_fuel body n rest
]

abbrev pub scan_text : (ℕ → List ℕ → Option (ℕ × List ℕ)) → List ℕ → Bool
scan_text body text = scan_fuel body (length text) text

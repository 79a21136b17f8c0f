-- ===== src/Progress/Cut.antt =====
-- `cn_progress_store_load` of `src/progress/progress_store.c` on a record that was cut short.
use crossnook.Base.{
  ℕ, zero, suc, ◌+◌, ◌≤◌, ◌<◌, ◌≡◌, refl, ap, ◌∙◌, arith, Bool, true, some, List, [], ◌∷◌, ◌++◌,
  take, drop, take-append-drop, length, length-append, length-drop, Text,
}
use crossnook.Sync.Types.{ProgressResult, Position}
use crossnook.Progress.Record.{token_bytes, read_record, read_u32be, regular, load, Disk, save}
use crossnook.Progress.Canonical.{read_record-record_of}
use crossnook.Progress.Unique.{header_read, lengths_read}
use crossnook.Progress.Store.{save-ok}
use crossnook.Progress.Again.{load-read}

drop-append_short : (n : ℕ) (xs ys : List ℕ) → n ≤ length xs → drop n (xs ++ ys) ≡ drop n xs ++ ys
drop-append_short zero xs ys h = refl
drop-append_short (suc n) [] ys h = absurd (omega arith)
drop-append_short (suc n) (x ∷ xs) ys h = drop-append_short n xs ys (omega arith)

read_u32be-append : (xs ys : List ℕ) → 4 ≤ length xs → read_u32be (xs ++ ys) ≡ read_u32be xs
unfolding read_u32be
read_u32be-append (a ∷ b ∷ c ∷ d ∷ rest) ys h = refl
read_u32be-append [] ys h = absurd (omega arith)
read_u32be-append (a ∷ []) ys h = absurd (omega arith)
read_u32be-append (a ∷ b ∷ []) ys h = absurd (omega arith)
read_u32be-append (a ∷ b ∷ c ∷ []) ys h = absurd (omega arith)

word_append :
    (n : ℕ) (xs ys : List ℕ)
    → n + 4 ≤ length xs
    → read_u32be (drop n (xs ++ ys)) ≡ read_u32be (drop n xs)
word_append n xs ys h =
    ap read_u32be (drop-append_short n xs ys (omega arith))
    ∙ read_u32be-append (drop n xs) ys (omega (arith, length-drop n xs))

-- The length of a record stands in its header.
whole_length :
    (malloc : ℕ → Bool) (token : Text) (bytes : List ℕ) (position : Position)
    → read_record malloc token bytes ≡ (ProgressResult.ok, some position)
    → length bytes ≡ 28 + read_u32be (drop 12 bytes) + read_u32be (drop 16 bytes)
whole_length malloc token bytes position h =
    let (m, v, h1) = header_read malloc token bytes position h in
    let (sizes, whole, crc, h2) = lengths_read malloc token _ _ _ bytes position h1 in
    omega (arith, whole)

-- So nothing can be added to it.
read_record-append :
    (malloc malloc' : ℕ → Bool) (token token' : Text) (front more : List ℕ)
    (position position' : Position)
    → read_record malloc token front ≡ (ProgressResult.ok, some position)
    → read_record malloc' token' (front ++ more) ≡ (ProgressResult.ok, some position')
    → length more ≡ 0
read_record-append malloc malloc' token token' front more position position' h h' =
    let short = whole_length malloc token front position h in
    let long = whole_length malloc' token' (front ++ more) position' h' in
    omega (
      arith,
      short,
      long,
      length-append front more,
      word_append 12 front more (omega (arith, short)),
      word_append 16 front more (omega (arith, short)),
    )

-- Whatever the calls of a load answer, a proper part from the front of what a save that returned
-- ok wrote, under a token of 1 to 24 bytes, is not loaded as a position under that token.
pub load-take :
    (malloc : ℕ → Bool) (disk : Disk) (token : Text) (position : Position) (bytes : List ℕ)
    (n size : ℕ) (closes : Bool) (other : Position)
    → 0 < length token
    → length token < token_bytes
    → save disk token position ≡ (ProgressResult.ok, some bytes)
    → n < length bytes
    → ¬ (
        load malloc token (regular size (some (take n bytes)) closes)
        ≡ (ProgressResult.ok, some other))
load-take malloc disk token position bytes n size closes other lo hi saved short loaded =
    let (ok, written) = save-ok disk token position bytes saved in
    let whole : read_record (λ s. true) token (take n bytes ++ drop n bytes)
        ≡ (ProgressResult.ok, some position) =
      ap (read_record (λ s. true) token) (take-append-drop n bytes ∙ written)
      ∙ read_record-record_of token position (λ s. true) refl ok lo hi in
    let rest =
      read_record-append malloc (λ s. true) token token (take n bytes) (drop n bytes) other position
        (load-read malloc token size (take n bytes) closes other loaded) whole in
    absurd (omega (arith, rest, length-drop n bytes))

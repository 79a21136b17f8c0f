-- ===== src/Examples/Progresses.antt =====
-- Runs of the JSON writer and reader, with decimals that are read as ten-thousandths.
use crossnook.Base.{
  ℕ, ◌-◌, [], ◌∷◌, all, is_digit, ◌^◌, ◌+◌, ◌*◌, ◌/◌, ◌≤◌, ◌≡◌, refl, arith, true, false, none,
  some, ◌++◌, ltb, if◌then◌else◌, length, Text, text_eq, codes,
}
use crossnook.Sync.Types.{KosyncResult, KosyncProgress}
use crossnook.Sync.Upload.{document_id_ok}
use crossnook.Utf8.{scan_fuel}
use crossnook.Utf8.Header.{bounded_count, header_text_ok}
use crossnook.Utf8.Kosync.{utf8_valid, sequence}
use crossnook.Json.Written.{quoted}
use crossnook.Json.Reader.{
  reader_string, low_half, first_is, reader_hex4, hex_digits_from, hex_value, codepoint,
}
use crossnook.Json.Number.{Libc, unit, percentage_value}
use crossnook.Json.Strings.{reader_string-quoted}
use crossnook.Json.Object.{json_max, parse_progress}
use crossnook.Json.Serialize.{
  fields_ok, position_ok, serialize_progress, serialize_parts, serialize_progress-json_text,
  json_text,
}
use crossnook.Json.Doubles.{IsRounded, decimal, decimal_value, percentage_value-decimal_value}
use crossnook.Json.RoundTrip.{read_back, parse_progress-serialize_progress}

abbrev digits_value : ℕ → Text → ℕ
digits_value value [] = value
digits_value value (d ∷ ds) = digits_value (10 * value + (d - b'0')) ds

-- Doubles with no limit on their precision, rounded to the nearest unit.
abbrev pub decimals : Libc
decimals = record {
  strtod = λ text.
      (record { negative = false; units = (decimal_value text * unit + 5000) / 10000 }, true);
  constant = λ text.
      if text_eq text (codes "10000.0") then 10000 * unit else (unit + 500000000) / 1000000000;
  product = λ m n. (m * n + 2 ^ 1073) / unit;
  sum = λ m n. m + n;
  strtoll = λ text. (some (digits_value 0 text), all is_digit text);
}

pub decimals-IsRounded : IsRounded decimals
decimals-IsRounded = record {
  whole = λ text d h. (refl, refl, omega arith);
  nearest = λ text d h. (omega arith, omega arith);
  ten_thousand = refl;
  billionth = (omega arith, omega arith);
  product_nearest = λ m n h k. (omega arith, omega arith);
  sum_nearest = λ m n h k. (omega arith, omega arith);
}

abbrev pub sample_id : Text
sample_id = codes "0123456789abcdef0123456789abcdef"

abbrev pub sample_progress : KosyncProgress
sample_progress = record {
  document_id = sample_id;
  logical_position = some (codes "a\"b\n");
  progress_10000 = some 2500;
  device = codes "reader";
  device_id = codes "r-1";
  timestamp = 7;
  has_timestamp = 1;
}

pub sample_fields : fields_ok sample_progress 2500 ≡ true
unfolding fields_ok document_id_ok header_text_ok bounded_count utf8_valid scan_fuel sequence
sample_fields = refl

pub sample_position : position_ok (codes "a\"b\n") ≡ true
unfolding position_ok bounded_count utf8_valid scan_fuel sequence
sample_position = refl

pub sample_utf8 : utf8_valid (codes "a\"b\n") ≡ true
unfolding utf8_valid scan_fuel sequence
sample_utf8 = refl

parse_progress-serialize_progress_example :
    (json : Text) × (serialize_progress sample_progress (json_max + 1)
      ≡ (KosyncResult.ok, some json))
    × (length json ≤ json_max)
    × (parse_progress decimals (λ size. true) json sample_progress
        ≡ (KosyncResult.ok, read_back sample_progress (codes "a\"b\n") 2500))
parse_progress-serialize_progress_example =
    parse_progress-serialize_progress decimals (λ size. true) sample_progress sample_progress
      (codes "a\"b\n") 2500 decimals-IsRounded refl refl refl (omega arith) (omega arith)
      (omega arith) sample_fields sample_position

serialize_progress-json_text_example :
    serialize_parts sample_progress (some (codes "a\"b\n")) (some 2500) 20 ≡ (
      if ltb (length (json_text sample_progress (codes "a\"b\n") 2500)) 20
      then (KosyncResult.ok, some (json_text sample_progress (codes "a\"b\n") 2500))
      else (KosyncResult.invalid, none))
serialize_progress-json_text_example =
    serialize_progress-json_text sample_progress (codes "a\"b\n") 2500 20 sample_fields
      sample_position

reader_string-quoted_example :
    reader_string 32 (quoted (codes "a\"b\n") ++ codes ",") ≡ some (codes "a\"b\n", codes ",")
reader_string-quoted_example =
    reader_string-quoted 32 (codes "a\"b\n") (codes ",") (omega arith) (omega arith) sample_utf8

percentage_value-decimal_value_example :
    percentage_value decimals (codes "0.25") ≡ some (decimal_value (codes "0.25"))
unfolding decimal
percentage_value-decimal_value_example =
    percentage_value-decimal_value decimals decimals-IsRounded (codes "0.25") refl quarter_low
  where
    quarter_low : decimal_value (codes "0.25") ≤ 10000
    quarter_low = omega arith

-- U+1F600 as the pair of halves d83d and de00.
grinning_pair : low_half 0xd83d (codes "\\ude00!") ≡ some (codepoint 0x1f600, codes "!")
unfolding low_half first_is reader_hex4 hex_digits_from hex_value
grinning_pair = refl

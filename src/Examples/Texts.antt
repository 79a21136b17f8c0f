-- ===== src/Examples/Texts.antt =====
-- Runs of the four UTF-8 validators. The text is `é€😀`, in bytes.
use crossnook.Base.{
  ◌≤◌, ◌<◌, ◌≡◌, refl, arith, ◌↔◌, true, false, some, [], ◌∷◌, ◌++◌, length, Text, codes,
}
use crossnook.Utf8.Scan.{IsEncoded}
use crossnook.Utf8.Agree.{any_value}
use crossnook.Utf8.Kosync
use crossnook.Utf8.Progress
use crossnook.Utf8.DeviceName
use crossnook.Utf8.DeviceId
use crossnook.Utf8.Agree.{utf8_valid-IsEncoded, utf8_valid-agree}
use crossnook.Utf8.Encode.{encode, decode_front, decode_front-encode}
use crossnook.Utf8.DeviceName.{device_name_valid-IsEncoded}
use crossnook.Utf8.DeviceId.{device_id_valid-header}
use crossnook.Utf8.Header.{
  header_text_ok, is_header_byte, header_and_utf8, device_name-header_text_ok,
}

abbrev sample : Text
sample = 0xc3 ∷ 0xa9 ∷ 0xe2 ∷ 0x82 ∷ 0xac ∷ 0xf0 ∷ 0x9f ∷ 0x98 ∷ 0x80 ∷ []

utf8_valid-IsEncoded_example : (Kosync.utf8_valid sample ≡ true) ↔ IsEncoded any_value sample
utf8_valid-IsEncoded_example = utf8_valid-IsEncoded sample (omega arith)

utf8_valid-agree_example : Progress.utf8_valid sample ≡ Kosync.utf8_valid sample
utf8_valid-agree_example = utf8_valid-agree sample (omega arith)

decode_front-encode_example :
    decode_front (encode 0x20ac ++ codes "rest") ≡ some (0x20ac, codes "rest")
decode_front-encode_example = decode_front-encode 0x20ac (codes "rest") refl

device_name_valid-IsEncoded_example :
    (DeviceName.device_name_valid sample ≡ true) ↔ IsEncoded DeviceName.is_printable sample
device_name_valid-IsEncoded_example = device_name_valid-IsEncoded sample (omega arith)

header_and_utf8_example :
    ((header_text_ok (some sample) 255 false ≡ true) × (Kosync.utf8_valid sample ≡ true))
    ↔ ((0 < length sample) × (length sample ≤ 255) × IsEncoded is_header_byte sample)
header_and_utf8_example = header_and_utf8 sample 255 (omega arith)

device_name-header_text_ok_example :
    (header_text_ok (some sample) 255 false ≡ true) × (Kosync.utf8_valid sample ≡ true)
unfolding DeviceName.device_name_valid crossnook.Utf8.scan_fuel DeviceName.sequence DeviceName.lead
    Kosync.tail_bytes DeviceName.is_refused
device_name-header_text_ok_example =
    device_name-header_text_ok sample (omega arith) (omega arith) (omega arith) refl

device_id_valid-header_example :
    (DeviceId.device_id_valid (some sample) ≡ true)
    ↔ ((header_text_ok (some sample) 255 false ≡ true) × (Kosync.utf8_valid sample ≡ true))
device_id_valid-header_example = device_id_valid-header sample (omega arith)

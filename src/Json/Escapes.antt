-- ===== src/Json/Escapes.antt =====
-- A string that is written in `\u` escapes only, with pairs of halves from U+10000 on, is read as
-- the encoding of its code points.
use crossnook.Base.{ℕ, List, [], ◌∷◌, ◌++◌, Text}
use crossnook.Utf8.Encode.{encode}
use crossnook.Json.Halves.{escape_point}

abbrev pub escape_points : List ℕ → Text
escape_points [] = []
escape_points (value ∷ values) = escape_point value ++ escape_points values

abbrev pub encode_all : List ℕ → List ℕ
encode_all [] = []
encode_all (value ∷ values) = encode value ++ encode_all values

-- ===== src/Md5.antt =====
-- `src/book/md5.c` and `src/book/md5.h`: the incremental MD5.
pub mod Absorb
pub mod Fill
pub mod Stream
pub mod Digest
use Prim.Native.Nat.{bit_and, bit_or, bit_xor}
use crossnook.Base.{
  ℕ, zero, suc, ◌+◌, ◌-◌, ◌*◌, ◌^◌, List, [], ◌∷◌, ◌++◌, ◌==◌, ltb, if◌then◌else◌, length, get_or,
  take, drop, replicate, u8, u32, u64, ◌<<<◌, ◌>>>◌, sub64, memcpy,
}

pub record State : Type 0 where
  pub a : ℕ
  pub b : ℕ
  pub c : ℕ
  pub d : ℕ

pub record Context : Type 0 where
  pub state : State
  pub byte_count : ℕ
  pub buffer : List ℕ
  pub buffer_length : ℕ

pub rotate_left : ℕ → ℕ → ℕ
rotate_left value shift = bit_or (u32 (value <<< shift)) (value >>> (32 - shift))

-- `~value` on `uint32_t`.
abbrev not32 : ℕ → ℕ
not32 value = 2 ^ 32 - 1 - value

pub read_u32le : List ℕ → ℕ
read_u32le p =
    bit_or (bit_or (bit_or (get_or p 0 0) (get_or p 1 0 <<< 8)) (get_or p 2 0 <<< 16))
      (get_or p 3 0 <<< 24)

unfoldable pub write_u32le : ℕ → List ℕ
write_u32le value = u8 value ∷ u8 (value >>> 8) ∷ u8 (value >>> 16) ∷ u8 (value >>> 24) ∷ []

pub constants : List ℕ
constants =
    0xd76aa478 ∷ 0xe8c7b756 ∷ 0x242070db ∷ 0xc1bdceee ∷ 0xf57c0faf ∷ 0x4787c62a ∷ 0xa8304613
    ∷ 0xfd469501 ∷ 0x698098d8 ∷ 0x8b44f7af ∷ 0xffff5bb1 ∷ 0x895cd7be ∷ 0x6b901122 ∷ 0xfd987193
    ∷ 0xa679438e ∷ 0x49b40821 ∷ 0xf61e2562 ∷ 0xc040b340 ∷ 0x265e5a51 ∷ 0xe9b6c7aa ∷ 0xd62f105d
    ∷ 0x02441453 ∷ 0xd8a1e681 ∷ 0xe7d3fbc8 ∷ 0x21e1cde6 ∷ 0xc33707d6 ∷ 0xf4d50d87 ∷ 0x455a14ed
    ∷ 0xa9e3e905 ∷ 0xfcefa3f8 ∷ 0x676f02d9 ∷ 0x8d2a4c8a ∷ 0xfffa3942 ∷ 0x8771f681 ∷ 0x6d9d6122
    ∷ 0xfde5380c ∷ 0xa4beea44 ∷ 0x4bdecfa9 ∷ 0xf6bb4b60 ∷ 0xbebfbc70 ∷ 0x289b7ec6 ∷ 0xeaa127fa
    ∷ 0xd4ef3085 ∷ 0x04881d05 ∷ 0xd9d4d039 ∷ 0xe6db99e5 ∷ 0x1fa27cf8 ∷ 0xc4ac5665 ∷ 0xf4292244
    ∷ 0x432aff97 ∷ 0xab9423a7 ∷ 0xfc93a039 ∷ 0x655b59c3 ∷ 0x8f0ccc92 ∷ 0xffeff47d ∷ 0x85845dd1
    ∷ 0x6fa87e4f ∷ 0xfe2ce6e0 ∷ 0xa3014314 ∷ 0x4e0811a1 ∷ 0xf7537e82 ∷ 0xbd3af235 ∷ 0x2ad7d2bb
    ∷ 0xeb86d391 ∷ []

pub shifts : List ℕ
shifts =
    7 ∷ 12 ∷ 17 ∷ 22 ∷ 7 ∷ 12 ∷ 17 ∷ 22 ∷ 7 ∷ 12 ∷ 17 ∷ 22 ∷ 7 ∷ 12 ∷ 17 ∷ 22 ∷ 5 ∷ 9 ∷ 14 ∷ 20 ∷ 5
    ∷ 9 ∷ 14 ∷ 20 ∷ 5 ∷ 9 ∷ 14 ∷ 20 ∷ 5 ∷ 9 ∷ 14 ∷ 20 ∷ 4 ∷ 11 ∷ 16 ∷ 23 ∷ 4 ∷ 11 ∷ 16 ∷ 23 ∷ 4 ∷ 11
    ∷ 16 ∷ 23 ∷ 4 ∷ 11 ∷ 16 ∷ 23 ∷ 6 ∷ 10 ∷ 15 ∷ 21 ∷ 6 ∷ 10 ∷ 15 ∷ 21 ∷ 6 ∷ 10 ∷ 15 ∷ 21 ∷ 6 ∷ 10
    ∷ 15 ∷ 21 ∷ []

-- The value `function` of round `i`.
mix : ℕ → State → ℕ
mix i s =
    if ltb i 16
    then bit_or (bit_and s.b s.c) (bit_and (not32 s.b) s.d)
    else if ltb i 32
    then bit_or (bit_and s.d s.b) (bit_and (not32 s.d) s.c)
    else if ltb i 48
    then bit_xor (bit_xor s.b s.c) s.d
    else bit_xor s.c (bit_or s.b (not32 s.d))

-- The index `word` of round `i`.
word_index : ℕ → ℕ
word_index i =
    if ltb i 16
    then i
    else if ltb i 32
    then bit_and (5 * i + 1) 15
    else if ltb i 48
    then bit_and (3 * i + 5) 15
    else bit_and (7 * i) 15

-- One turn of the 64-round loop.
round : List ℕ → ℕ → State → State
unfolding mix word_index
round words i s =
    let sum = u32 (s.a + mix i s + get_or constants i 0 + get_or words (word_index i) 0) in
    record { a = s.d; b = u32 (s.b + rotate_left sum (get_or shifts i 0)); c = s.b; d = s.c }

rounds : List ℕ → ℕ → ℕ → State → State
unfolding round
rounds words zero i s = s
rounds words (suc left) i s = rounds words left (i + 1) (round words i s)

-- `words[i] = read_u32le(block + i * 4)` for the words from `i` on.
load_words : ℕ → ℕ → List ℕ → List ℕ
load_words zero i block = []
load_words (suc left) i block = read_u32le (drop (i * 4) block) ∷ load_words left (i + 1) block

unfoldable pub transform : State → List ℕ → State
unfolding rounds load_words constants shifts rotate_left read_u32le
transform s block =
    let t = rounds (load_words 16 0 block) 64 0 s in
    record { a = u32 (s.a + t.a); b = u32 (s.b + t.b); c = u32 (s.c + t.c); d = u32 (s.d + t.d) }

abbrev pub initial : State
initial = record { a = 0x67452301; b = 0xefcdab89; c = 0x98badcfe; d = 0x10325476 }

unfoldable pub init : Context → Context
init context = record context { state = initial; byte_count = 0; buffer_length = 0 }

-- The first `if` of the update: completes a block that an earlier call began. The result is the
-- context and what is left of the input.
pub fill_buffer : Context → List ℕ → Context × List ℕ
fill_buffer context input =
    if context.buffer_length == 0
    then (context, input)
    else let room = sub64 64 context.buffer_length in
      let needed = if ltb (length input) room then length input else room in
      let buffer = memcpy context.buffer context.buffer_length input needed in
      let filled = context.buffer_length + needed in
      if filled == 64
      then (
        record context {
          buffer = buffer;
          buffer_length = 0;
          state = transform context.state buffer;
        },
        drop needed input,
      )
      else (record context { buffer = buffer; buffer_length = filled }, drop needed input)

-- `while (length >= 64)`, on fuel: a round takes 64 bytes, so the input's length is enough.
pub whole_blocks : ℕ → State → List ℕ → State × List ℕ
whole_blocks zero s input = (s, input)
whole_blocks (suc fuel) s input =
    let rest = whole_blocks fuel (transform s (take 64 input)) (drop 64 input) in
    if ltb (length input) 64 then (s, input) else rest

-- The last `if` of the update.
keep_tail : Context → List ℕ → Context
keep_tail context input = if length input == 0 then context else record context {
  buffer = memcpy context.buffer 0 input (length input);
  buffer_length = length input;
}

unfoldable pub update : Context → List ℕ → Context
unfolding fill_buffer whole_blocks keep_tail
update context input =
    let counted = record context { byte_count = u64 (context.byte_count + length input) } in
    let (filled, rest) = fill_buffer counted input in
    let (s, tail) = whole_blocks (length rest) filled.state rest in
    keep_tail (record filled { state = s }) tail

abbrev pub padding : List ℕ
padding = 0x80 ∷ replicate 63 0

-- `(unsigned char)(bit_count >> (i * 8))` for i from 0 to 7.
unfoldable pub length_bytes : ℕ → List ℕ
length_bytes bits =
    u8 bits
    ∷ u8 (bits >>> 8)
    ∷ u8 (bits >>> 16)
    ∷ u8 (bits >>> 24)
    ∷ u8 (bits >>> 32)
    ∷ u8 (bits >>> 40)
    ∷ u8 (bits >>> 48)
    ∷ u8 (bits >>> 56)
    ∷ []

unfoldable pub padding_length : ℕ → ℕ
padding_length used = if ltb used 56 then sub64 56 used else sub64 120 used

unfoldable pub digest_of : State → List ℕ
digest_of s = write_u32le s.a ++ (write_u32le s.b ++ (write_u32le s.c ++ write_u32le s.d))

unfoldable pub final : Context → List ℕ
final context =
    let bits = u64 (context.byte_count * 8) in
    let padded = update context (take (padding_length context.buffer_length) padding) in
    digest_of (update padded (length_bytes bits)).state

-- ===== src/Time.antt =====
-- `src/time/timesimple.c`: the SNTP request, and the checks and the decoding of the answer. The
-- clock and the entropy are parameters. A round trip below 0 is `none`; the differences of the
-- code that can be below 0 are compared with positive bounds, so that a subtraction that stops at
-- 0 compares alike.
pub mod Decoded
use Prim.Native.Nat.{bit_and, bit_or}
use crossnook.Base.{
  ℕ, ◌+◌, ◌-◌, ◌*◌, ◌/◌, ◌%◌, Bool, true, false, not, ◌&&◌, ◌||◌, Option, none, some, List, [], ◌∷◌,
  ◌++◌, ◌==◌, ltb, leb, if◌then◌else◌, length, take, drop, get_or, replicate, text_eq, u8, u32,
  ◌<<<◌, ◌>>>◌,
}
use crossnook.Sync.Types.{TimeResult}

-- `cn_time_sample`
pub record TimeSample : Type 0 where
  pub unix_seconds : ℕ
  pub nanoseconds : ℕ
  pub rtt_ms : ℕ
  pub server_index : ℕ

abbrev pub release_min_unix : ℕ
release_min_unix = 1789908147

abbrev pub target_max_unix : ℕ
target_max_unix = 2147483647

abbrev pub packet_bytes : ℕ
packet_bytes = 48

abbrev pub ntp_unix_delta : ℕ
ntp_unix_delta = 2208988800

abbrev pub ntp_era_seconds : ℕ
ntp_era_seconds = 4294967296

unfoldable pub load_u32 : List ℕ → ℕ
load_u32 p =
    bit_or (bit_or (bit_or (get_or p 0 0 <<< 24) (get_or p 1 0 <<< 16)) (get_or p 2 0 <<< 8))
      (get_or p 3 0)

abbrev pub store_u32 : ℕ → List ℕ
store_u32 value = u8 (value >>> 24) ∷ u8 (value >>> 16) ∷ u8 (value >>> 8) ∷ u8 value ∷ []

unfoldable pub timestamp_nonzero : List ℕ → Bool
timestamp_nonzero [] = false
timestamp_nonzero (x ∷ xs) = not (x == 0) || timestamp_nonzero xs

-- What the clock and the entropy source give, or not; the request is written when both do.
abbrev pub build_request : Option ℕ → Option (List ℕ) → TimeResult × Option (List ℕ)
build_request none fraction = (TimeResult.internal, none)
build_request (some wall) none = (TimeResult.entropy_failed, none)
build_request (some wall) (some fraction) = (
  TimeResult.ok,
  some (0x23 ∷ replicate 39 0 ++ (store_u32 (u32 (wall + ntp_unix_delta)) ++ fraction)),
)

abbrev pub in_range : ℕ → Bool
in_range seconds = leb release_min_unix seconds && leb seconds target_max_unix

-- The one candidate of the two eras that is in range.
unfoldable pub candidate : ℕ → Option ℕ
candidate seconds =
    let era0 = seconds - ntp_unix_delta in
    let era1 = seconds + ntp_era_seconds - ntp_unix_delta in
    if in_range era0
    then if in_range era1 then none else some era0
    else if in_range era1
    then some era1
    else none

-- The sample, with the nanoseconds that were added to the seconds.
unfoldable pub moved : ℕ → ℕ → ℕ → TimeSample → TimeResult × TimeSample
moved start nanoseconds rtt_ns sample =
    let seconds = start + nanoseconds / 1000000000 in
    if not (in_range seconds) then (TimeResult.time_range, sample) else (
      TimeResult.ok,
      record sample {
        unix_seconds = seconds;
        nanoseconds = nanoseconds % 1000000000;
        rtt_ms = u32 ((rtt_ns + 999999) / 1000000);
      },
    )

-- The fraction of a second and half a round trip later.
unfoldable pub adjusted : ℕ → ℕ → ℕ → TimeSample → TimeResult × TimeSample
adjusted start fraction rtt_ns sample =
    moved start (((fraction * 1000000000) >>> 32) + rtt_ns / 2) rtt_ns sample

-- The matches of the two eras and the round trip.
unfoldable pub matched : Option ℕ → ℕ → Option ℕ → TimeSample → TimeResult × TimeSample
matched none fraction rtt_ns sample = (TimeResult.time_range, sample)
matched (some start) fraction none sample = (TimeResult.time_range, sample)
matched (some start) fraction (some rtt_ns) sample = adjusted start fraction rtt_ns sample

unfoldable pub decode_transmit_time : List ℕ → Option ℕ → TimeSample → TimeResult × TimeSample
decode_transmit_time timestamp rtt_ns sample =
    matched (candidate (load_u32 timestamp)) (load_u32 (drop 4 timestamp)) rtt_ns sample

-- The answer to a request, with its length; what is read of it lies inside its 48 bytes.
unfoldable pub validate_response :
    List ℕ → ℕ → List ℕ → Option ℕ → TimeSample → TimeResult × TimeSample
validate_response response response_len request rtt_ns sample =
    let first = get_or response 0 0 in
    let stratum = get_or response 1 0 in
    if not (response_len == packet_bytes)
    then (TimeResult.packet_size, sample)
    else if not (bit_and (first >>> 3) 7 == 4)
    then (TimeResult.version, sample)
    else if not (bit_and first 7 == 4)
    then (TimeResult.mode, sample)
    else if first >>> 6 == 3
    then (TimeResult.unsynchronized, sample)
    else if stratum == 0
    then (TimeResult.kiss_of_death, sample)
    else if ltb 15 stratum
    then (TimeResult.stratum, sample)
    else if not (text_eq (take 8 (drop 24 response)) (take 8 (drop 40 request)))
    then (TimeResult.originate_mismatch, sample)
    else if not (timestamp_nonzero (take 8 (drop 32 response)))
    then (TimeResult.zero_receive, sample)
    else if not (timestamp_nonzero (take 8 (drop 40 response)))
    then (TimeResult.zero_transmit, sample)
    else decode_transmit_time (take 8 (drop 40 response)) rtt_ns sample

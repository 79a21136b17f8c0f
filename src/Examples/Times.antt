-- ===== src/Examples/Times.antt =====
-- Runs of `src/time/timesimple.c`.
use crossnook.Base.{
  ℕ, ◌+◌, ◌*◌, ◌/◌, ◌%◌, ◌≤◌, ◌<◌, ◌≡◌, refl, arith, true, some, List, [], ◌∷◌, ◌++◌, length, take,
  drop, get_or, replicate, text_eq, u32,
}
use crossnook.Sync.Types.{TimeResult}
use crossnook.Time.{
  TimeSample, ntp_unix_delta, ntp_era_seconds, store_u32, packet_bytes, decode_transmit_time,
  validate_response, matched, adjusted, moved, candidate, load_u32, timestamp_nonzero,
}
use crossnook.Time.Decoded.{IsInRange, decode_transmit_time-store_u32, validate_response-IsInRange}

abbrev no_sample : TimeSample
no_sample = record { unix_seconds = 0; nanoseconds = 0; rtt_ms = 0; server_index = 0 }

-- A time after the end of the first era.
abbrev late_time : ℕ
late_time = 2100000000

decode_transmit_time-store_u32_example :
    decode_transmit_time
      (store_u32 ((late_time + ntp_unix_delta) % ntp_era_seconds) ++ store_u32 4294967295)
      (some 20000000)
      no_sample
    ≡ (
      TimeResult.ok,
      record no_sample {
        unix_seconds =
            late_time + (4294967295 * 1000000000 / 4294967296 + 20000000 / 2) / 1000000000;
        nanoseconds = (4294967295 * 1000000000 / 4294967296 + 20000000 / 2) % 1000000000;
        rtt_ms = u32 ((20000000 + 999999) / 1000000);
      },
    )
decode_transmit_time-store_u32_example =
    decode_transmit_time-store_u32 late_time 4294967295 20000000 no_sample (omega arith)
      (omega arith) (omega arith)

abbrev request : List ℕ
request = 0x23 ∷ replicate 39 0 ++ (1 ∷ 2 ∷ 3 ∷ 4 ∷ 5 ∷ 6 ∷ 7 ∷ 8 ∷ [])

abbrev response : List ℕ
response =
    0x24 ∷ 2 ∷ replicate 22 0
    ++ (1 ∷ 2 ∷ 3 ∷ 4 ∷ 5 ∷ 6 ∷ 7 ∷ 8 ∷ [])
    ++ (9 ∷ replicate 7 0)
    ++ (store_u32 ((late_time + ntp_unix_delta) % ntp_era_seconds) ++ store_u32 0)

validate_response-IsInRange_example :
    (length response ≡ packet_bytes)
    × (0 < get_or response 1 0)
    × (get_or response 1 0 ≤ 15)
    × (text_eq (take 8 (drop 24 response)) (take 8 (drop 40 request)) ≡ true)
    × IsInRange (validate_response response (length response) request (some 1000000) no_sample).1
unfolding validate_response decode_transmit_time matched adjusted moved candidate load_u32
    timestamp_nonzero
validate_response-IsInRange_example =
    validate_response-IsInRange response (length response) request (some 1000000) no_sample refl

-- Half a second is 500000000 nanoseconds.
half_second :
    adjusted late_time 2147483648 0 no_sample
    ≡ (TimeResult.ok, record no_sample { unix_seconds = late_time; nanoseconds = 500000000 })
unfolding adjusted moved
half_second = refl

-- ===== src/Time/Decoded.antt =====
-- The time that a timestamp of `src/time/timesimple.c` stands for.
use Prim.Native.Nat.{bit_or, bit_and, ◌^◌}
use crossnook.Base.{
  get_or, take, drop, text_eq, or_shifted, ◌>>>◌, Bool-cases, not, ◌==◌, ltb, if_both, inl, inr, ℕ,
  ◌+◌, ◌*◌, ◌/◌, ◌%◌, ◌<◌, ◌≤◌, ◌≡◌, ap, ◌∙◌, arith, Bool, true, false, Option, none, some, ◌++◌,
  ◌∷◌, [], List, u32,
}
use crossnook.Sync.Types.{TimeResult}
use crossnook.Time.{
  validate_response, packet_bytes, timestamp_nonzero, TimeSample, release_min_unix, target_max_unix,
  ntp_unix_delta, ntp_era_seconds, load_u32, store_u32, in_range, candidate, adjusted, moved,
  matched, decode_transmit_time,
}

four_bytes :
    (a b c d : ℕ)
    → b < 256
    → c < 256
    → d < 256
    → load_u32 (a ∷ b ∷ c ∷ d ∷ []) ≡ a * 16777216 + b * 65536 + c * 256 + d
unfolding load_u32
four_bytes a b c d p q r =
    let two : bit_or (a * 2 ^ 24) (b * 2 ^ 16) ≡ (a * 256 + b) * 2 ^ 16 =
      or_shifted 24 a (b * 2 ^ 16) (omega arith) ∙ omega arith in
    let three : bit_or ((a * 256 + b) * 2 ^ 16) (c * 2 ^ 8) ≡ (a * 65536 + b * 256 + c) * 2 ^ 8 =
      or_shifted 16 (a * 256 + b) (c * 2 ^ 8) (omega arith) ∙ omega arith in
    ap (λ t. bit_or (bit_or t (c * 2 ^ 8)) d) two
    ∙ ap (λ t. bit_or t d) three
    ∙ or_shifted 8 (a * 65536 + b * 256 + c) d (omega arith)
    ∙ omega arith

load_u32-store_u32 : (value : ℕ) → value < 4294967296 → load_u32 (store_u32 value) ≡ value
load_u32-store_u32 value h =
    four_bytes _ _ _ _ (omega arith) (omega arith) (omega arith) ∙ omega arith

candidate_of_time :
    (time : ℕ)
    → release_min_unix ≤ time
    → time ≤ target_max_unix
    → candidate ((time + ntp_unix_delta) % ntp_era_seconds) ≡ some time
unfolding candidate
candidate_of_time time lo hi = ground arith

load_front :
    (value : ℕ) (rest : List ℕ) → value < 4294967296 → load_u32 (store_u32 value ++ rest) ≡ value
unfolding load_u32
load_front value rest h = load_u32-store_u32 value h

moved_in_range :
    (time nanoseconds rtt_ns : ℕ) (sample : TimeSample)
    → release_min_unix ≤ time
    → time + nanoseconds / 1000000000 ≤ target_max_unix
    → moved time nanoseconds rtt_ns sample ≡ (
      TimeResult.ok,
      record sample {
        unix_seconds = time + nanoseconds / 1000000000;
        nanoseconds = nanoseconds % 1000000000;
        rtt_ms = u32 ((rtt_ns + 999999) / 1000000);
      },
    )
unfolding moved
moved_in_range time nanoseconds rtt_ns sample lo hi = ground arith

-- The time that a timestamp stands for lies in the range, with less than a second left over.
unfoldable pub IsInRange : TimeSample → Type 0
IsInRange sample =
    (release_min_unix ≤ sample.unix_seconds)
    × (sample.unix_seconds ≤ target_max_unix)
    × (sample.nanoseconds < 1000000000)

moved-IsInRange :
    (start nanoseconds rtt_ns : ℕ) (sample : TimeSample)
    → (moved start nanoseconds rtt_ns sample).0 ≡ TimeResult.ok
    → IsInRange (moved start nanoseconds rtt_ns sample).1
unfolding moved IsInRange
moved-IsInRange start nanoseconds rtt_ns sample h =
    elim (Bool-cases (in_range (start + nanoseconds / 1000000000))) [
      | inl inside ↦ rw inside (ground arith, ground arith, omega arith)
      | inr outside ↦ absurd (ground arith)
    ]

matched-IsInRange :
    (start : Option ℕ) (fraction : ℕ) (rtt_ns : Option ℕ) (sample : TimeSample)
    → (matched start fraction rtt_ns sample).0 ≡ TimeResult.ok
    → IsInRange (matched start fraction rtt_ns sample).1
unfolding matched adjusted
matched-IsInRange none fraction rtt_ns sample h = absurd (ground arith)
matched-IsInRange (some start) fraction none sample h = absurd (ground arith)
matched-IsInRange (some start) fraction (some rtt_ns) sample h =
    moved-IsInRange start _ rtt_ns sample h

-- For a time from the lower bound on, sent modulo the era with a fraction of a second, the
-- decoding gives that time with the fraction and half the round trip added, if the sum does not
-- pass the upper bound.
pub decode_transmit_time-store_u32 :
    (time fraction rtt_ns : ℕ) (sample : TimeSample)
    → release_min_unix ≤ time
    → fraction < 4294967296
    → time + (fraction * 1000000000 / 4294967296 + rtt_ns / 2) / 1000000000 ≤ target_max_unix
    → decode_transmit_time
        (store_u32 ((time + ntp_unix_delta) % ntp_era_seconds) ++ store_u32 fraction)
        (some rtt_ns)
        sample
      ≡ (
        TimeResult.ok,
        record sample {
          unix_seconds = time + (fraction * 1000000000 / 4294967296 + rtt_ns / 2) / 1000000000;
          nanoseconds = (fraction * 1000000000 / 4294967296 + rtt_ns / 2) % 1000000000;
          rtt_ms = u32 ((rtt_ns + 999999) / 1000000);
        },
      )
unfolding decode_transmit_time matched adjusted
decode_transmit_time-store_u32 time fraction rtt_ns sample lo f hi =
    let front : load_u32
          (store_u32 ((time + ntp_unix_delta) % ntp_era_seconds) ++ store_u32 fraction)
        ≡ (time + ntp_unix_delta) % ntp_era_seconds =
      load_front ((time + ntp_unix_delta) % ntp_era_seconds) (store_u32 fraction) (omega arith) in
    let back = load_u32-store_u32 fraction f in
    rw (front, back, candidate_of_time time lo (omega arith))
      (moved_in_range time _ rtt_ns sample lo hi)

accepted :
    (n stratum : ℕ) (repeated : Bool)
    → not (n == packet_bytes) ≡ false
    → (stratum == 0) ≡ false
    → ltb 15 stratum ≡ false
    → not repeated ≡ false
    → (n ≡ packet_bytes) × (0 < stratum) × (stratum ≤ 15) × (repeated ≡ true)
accepted n stratum repeated a b c d = (ground arith, ground arith, ground arith, ground arith)

-- An answer that is accepted has the length of a packet and a stratum of 1 to 15, it repeats the
-- transmit timestamp of the request, and the sample lies in the range, with less than a second of
-- nanoseconds.
pub validate_response-IsInRange :
    (response : List ℕ) (response_len : ℕ) (request : List ℕ) (rtt_ns : Option ℕ)
    (sample : TimeSample)
    → (validate_response response response_len request rtt_ns sample).0 ≡ TimeResult.ok
    → (response_len ≡ packet_bytes)
      × (0 < get_or response 1 0)
      × (get_or response 1 0 ≤ 15)
      × (text_eq (take 8 (drop 24 response)) (take 8 (drop 40 request)) ≡ true)
      × IsInRange (validate_response response response_len request rtt_ns sample).1
unfolding validate_response decode_transmit_time
validate_response-IsInRange response response_len request rtt_ns sample =
    if_both P (not (response_len == packet_bytes)) (λ t e. absurd (ground arith))
      λ h0.
        if_both P (not (bit_and (get_or response 0 0 >>> 3) 7 == 4)) (λ t e. absurd (ground arith))
          λ h1.
            if_both P (not (bit_and (get_or response 0 0) 7 == 4)) (λ t e. absurd (ground arith))
              λ h2.
                if_both P (get_or response 0 0 >>> 6 == 3) (λ t e. absurd (ground arith))
                  λ h3.
                    if_both P (get_or response 1 0 == 0) (λ t e. absurd (ground arith))
                      λ h4.
                        if_both P (ltb 15 (get_or response 1 0)) (λ t e. absurd (ground arith))
                          λ h5.
                            if_both P
                              (not (text_eq (take 8 (drop 24 response)) (take 8 (drop 40 request))))
                              (λ t e. absurd (ground arith))
                              λ h6.
                                if_both P (not (timestamp_nonzero (take 8 (drop 32 response))))
                                  (λ t e. absurd (ground arith))
                                  λ h7.
                                    if_both P (not (timestamp_nonzero (take 8 (drop 40 response))))
                                      (λ t e. absurd (ground arith))
                                      λ h8 e.
                                        let (n, some_stratum, low_stratum, repeated) =
                                          accepted response_len (get_or response 1 0) _ h0 h4 h5
                                            h6 in
                                        (
                                          n,
                                          some_stratum,
                                          low_stratum,
                                          repeated,
                                          matched-IsInRange _ _ rtt_ns sample e,
                                        )
  where
    P : TimeResult × TimeSample → Type 0
    P answer =
        answer.0 ≡ TimeResult.ok
        → (response_len ≡ packet_bytes)
          × (0 < get_or response 1 0)
          × (get_or response 1 0 ≤ 15)
          × (text_eq (take 8 (drop 24 response)) (take 8 (drop 40 request)) ≡ true)
          × IsInRange answer.1

-- ===== src/Server/Compare.antt =====
-- The comparison of a position from the server with the local one: `cn_kosync_classify_remote` of
-- `src/sync/kosync.c`, for timestamps that are not negative.
use crossnook.Base.{
  ℕ, ◌≡◌, arith, Bool, true, false, not, ◌&&◌, ◌||◌, Option, none, some, ◌==◌, ltb, if◌then◌else◌,
  Text, text_eq, Bool-cases, inl, inr,
}
use crossnook.Sync.Types.{KosyncProgress}

-- `cn_kosync_remote_state`.
pub data RemoteState : Type 0 where
  same_device already_synced newer older_or_equal : RemoteState

-- Two texts that are not NULL and equal.
abbrev pub both_equal : Option Text → Option Text → Bool
both_equal (some a) (some b) = text_eq a b
both_equal _ _ = false

-- Progress is -1 or a count of hundredths of a percent.
abbrev pub equal_progress : Option ℕ → Option ℕ → Bool
equal_progress none none = true
equal_progress (some m) (some n) = m == n
equal_progress _ _ = false

abbrev pub less_progress : Option ℕ → Option ℕ → Bool
less_progress m none = false
less_progress none (some n) = true
less_progress (some m) (some n) = ltb m n

abbrev pub is_same_device : KosyncProgress → Option Text → Option Text → Bool
is_same_device remote (some model) (some id) =
    text_eq remote.device model && text_eq remote.device_id id
is_same_device remote _ _ = false

abbrev pub is_synced : KosyncProgress → Option Text → Option ℕ → Bool
is_synced remote none progress = false
is_synced remote (some position) progress =
    equal_progress remote.progress_10000 progress
    || both_equal remote.logical_position (some position)

abbrev pub is_newer : KosyncProgress → Option ℕ → ℕ → Bool
is_newer remote progress timestamp =
    (not (remote.has_timestamp == 0) && ltb timestamp remote.timestamp)
    || (remote.has_timestamp == 0 && less_progress progress remote.progress_10000)

-- `cn_kosync_classify_remote`.
unfoldable pub classify_remote :
    Option KosyncProgress → Option Text → Option ℕ → ℕ → Option Text → Option Text → RemoteState
classify_remote none position progress timestamp model id = RemoteState.older_or_equal
classify_remote (some remote) position progress timestamp model id =
    if is_same_device remote model id
    then RemoteState.same_device
    else if is_synced remote position progress
    then RemoteState.already_synced
    else if is_newer remote progress timestamp
    then RemoteState.newer
    else RemoteState.older_or_equal

-- A position as another device sees it, against its own.
abbrev pub seen_by : KosyncProgress → KosyncProgress → RemoteState
seen_by local remote =
    classify_remote (some remote) local.logical_position local.progress_10000 local.timestamp
      (some local.device) (some local.device_id)

third_check :
    (a b c : Bool)
    → ◌≡◌ {A = RemoteState}
        (if a
          then RemoteState.same_device
          else if b
          then RemoteState.already_synced
          else if c
          then RemoteState.newer
          else RemoteState.older_or_equal)
        RemoteState.newer
    → c ≡ true
third_check a b c h = ground arith

newer-is_newer :
    (local remote : KosyncProgress)
    → seen_by local remote ≡ RemoteState.newer
    → is_newer remote local.progress_10000 local.timestamp ≡ true
unfolding classify_remote
newer-is_newer local remote h =
    third_check (is_same_device remote (some local.device) (some local.device_id))
      (is_synced remote local.logical_position local.progress_10000)
      (is_newer remote local.progress_10000 local.timestamp) h

less_progress_asym : (m n : Option ℕ) → less_progress m n ≡ true → less_progress n m ≡ true → ⊥
less_progress_asym none none h k = ground arith
less_progress_asym none (some n) h k = ground arith
less_progress_asym (some m) none h k = ground arith
less_progress_asym (some m) (some n) h k = ground arith

-- When both positions have a timestamp or both have none, two devices never each find the
-- position of the other newer than their own.
pub seen_by_asym :
    (mine other : KosyncProgress)
    → (mine.has_timestamp == 0) ≡ (other.has_timestamp == 0)
    → seen_by mine other ≡ RemoteState.newer
    → ¬ (seen_by other mine ≡ RemoteState.newer)
seen_by_asym mine other same h k =
    let a = newer-is_newer mine other h in
    let b = newer-is_newer other mine k in
    elim (Bool-cases (other.has_timestamp == 0)) [
      | inl z ↦
          less_progress_asym mine.progress_10000 other.progress_10000 (ground arith) (ground arith)
      | inr z ↦ ground arith
    ]

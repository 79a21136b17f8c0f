-- ===== src/Sync/Policy/Retries.antt =====
-- `src/sync/kosync_policy.c`: when a classification asks for another attempt.
use crossnook.Base.{
  ℕ, ◌≡◌, refl, Bool, if_both, true, false, not, ◌&&◌, ◌||◌, Option, none, some, if◌then◌else◌,
}
use crossnook.Sync.Types.{
  SyncStatus, Decision, TimeResult, DnsResult, Transport, KosyncResult, SyncResult, Outcome, Retry,
  ProductResult,
}
use crossnook.Sync.Policy.{
  is_decision, is_boolean, is_set, fail_closed, boolean_fields_valid, success_invariants_hold,
  set_outcome, success_outcome, classify_success, classify_time, classify_dns, classify_https,
  classify_protocol, is_unreadable, is_contradictory, classify_status, classify,
}

unfoldable pub is_final : Retry → Bool
is_final Retry.no_retry = true
is_final _ = false

-- The outcomes of a run that did what it could, and of a run that was not to be made.
unfoldable pub is_settled : Outcome → Bool
is_settled Outcome.disabled = true
is_settled Outcome.unchanged = true
is_settled Outcome.uploaded = true
is_settled Outcome.imported = true
is_settled Outcome.no_state = true
is_settled _ = false

unfoldable pub is_automatic : Retry → Bool
is_automatic Retry.automatic_later = true
is_automatic _ = false

-- The outcomes that may pass with time.
unfoldable pub may_pass : Outcome → Bool
may_pass Outcome.trusted_time_unavailable = true
may_pass Outcome.connectivity_failure = true
may_pass Outcome.service_failure = true
may_pass _ = false

-- No retry for the settled outcomes and only for them; an automatic one only where it may help.
unfoldable pub IsRetried : ProductResult → Type 0
IsRetried result =
    (is_final result.retry ≡ is_settled result.outcome)
    × ((is_automatic result.retry && not (may_pass result.outcome)) ≡ false)

module _ (result : ProductResult) where
  time-IsRetried : (code : TimeResult) → IsRetried (classify_time code result)
  unfolding classify_time fail_closed IsRetried is_final is_settled is_automatic may_pass
  time-IsRetried code = elim code as (λ k. IsRetried (classify_time k result)) [
    | TimeResult.ok ↦ (refl, refl)
    | _ ↦ (refl, refl)
  ]

  dns-IsRetried : (code : DnsResult) → IsRetried (classify_dns code result)
  unfolding classify_dns fail_closed IsRetried is_final is_settled is_automatic may_pass
  dns-IsRetried code = elim code as (λ k. IsRetried (classify_dns k result)) [
    | DnsResult.ok ↦ (refl, refl)
    | _ ↦ (refl, refl)
  ]

  https-IsRetried : (code : Transport) → IsRetried (classify_https code result)
  unfolding classify_https fail_closed IsRetried is_final is_settled is_automatic may_pass
  https-IsRetried code = elim code as (λ k. IsRetried (classify_https k result)) [
    | Transport.ok ↦ (refl, refl)
    | _ ↦ (refl, refl)
  ]

  http-IsRetried :
      (temporary : Bool)
      → IsRetried (
          set_outcome Outcome.service_failure
            (if temporary then Retry.automatic_later else Retry.explicit_action)
            result)
  unfolding IsRetried is_final is_settled is_automatic may_pass
  http-IsRetried true = (refl, refl)
  http-IsRetried false = (refl, refl)

  protocol-IsRetried :
      (code : KosyncResult) (status : ℕ) → IsRetried (classify_protocol code status result)
  unfolding classify_protocol fail_closed IsRetried is_final is_settled is_automatic may_pass
  protocol-IsRetried code status =
      elim code as (λ k. IsRetried (classify_protocol k status result)) [
        | KosyncResult.http_error ↦ http-IsRetried _
        | _ ↦ (refl, refl)
      ]

  outcome-IsRetried : (decision : Decision) → IsRetried (success_outcome decision result)
  unfolding success_outcome fail_closed IsRetried is_final is_settled is_automatic may_pass
  outcome-IsRetried decision = elim decision as (λ d. IsRetried (success_outcome d result)) [
    | Decision.ambiguous ↦ (refl, refl)
    | _ ↦ (refl, refl)
  ]

  success-IsRetried : (sync : SyncResult) → IsRetried (classify_success sync result)
  unfolding classify_success fail_closed IsRetried is_final is_settled is_automatic may_pass
  success-IsRetried sync =
      if_both IsRetried (not (success_invariants_hold sync)) (λ h. (refl, refl))
        λ h. outcome-IsRetried sync.decision

  status-IsRetried :
      (status : SyncStatus) (sync : SyncResult) → IsRetried (classify_status status sync result).1
  unfolding classify_status fail_closed IsRetried is_final is_settled is_automatic may_pass
  status-IsRetried status sync = elim status as (λ s. IsRetried (classify_status s sync result).1) [
    | SyncStatus.ok ↦ success-IsRetried sync
    | SyncStatus.trusted_time_failed ↦ time-IsRetried sync.time_result
    | SyncStatus.dns_failed ↦ dns-IsRetried sync.dns_result
    | SyncStatus.https_failed ↦ https-IsRetried sync.transport_result
    | SyncStatus.protocol_failed ↦ protocol-IsRetried sync.kosync_result sync.http_status
    | _ ↦ (refl, refl)
  ]

-- Whatever the result of the run, a classification asks for no retry exactly when its outcome is
-- disabled, unchanged, uploaded, imported or no state, and for an automatic one only when its
-- outcome is that trusted time is unavailable, or a failure of connectivity or of the service.
pub classify-IsRetried :
    (enabled : ℕ) (sync : Option SyncResult) → IsRetried (classify enabled sync).1
unfolding classify fail_closed IsRetried is_final is_settled is_automatic may_pass
classify-IsRetried enabled none =
    if_both P (not (is_boolean enabled)) (λ h. (refl, refl))
      λ h. if_both P (not (is_set enabled)) (λ h. (refl, refl)) λ h. (refl, refl)
  where
    P : Bool × ProductResult → Type 0
    P answer = IsRetried answer.1
classify-IsRetried enabled (some sync) =
    if_both P (not (is_boolean enabled)) (λ h. (refl, refl))
      λ h.
        if_both P (not (is_set enabled)) (λ h. (refl, refl))
          λ h.
            if_both P
              (not (boolean_fields_valid sync)
                || (is_unreadable sync.status sync || not (is_decision sync.decision)))
              (λ h. (refl, refl))
              λ h.
                if_both P (is_contradictory sync) (λ h. (refl, refl))
                  λ h. status-IsRetried _ sync.status sync
  where
    P : Bool × ProductResult → Type 0
    P answer = IsRetried answer.1

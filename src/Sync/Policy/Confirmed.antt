-- ===== src/Sync/Policy/Confirmed.antt =====
-- `src/sync/kosync_policy.c`: when a classification reports a confirmed change.
use native.Mathlib.Omega.{arith}
use crossnook.Base.{
  ℕ, ◌≡◌, refl, ◌∙◌, Bool, Bool-cases, if_both, inl, inr, true, false, not, ◌&&◌, ◌||◌, Option,
  none, some,
}
use crossnook.Sync.Types.{
  SyncStatus, Decision, TimeResult, DnsResult, Transport, KosyncResult, SyncResult, Outcome,
  Mutation, ProductResult,
}
use crossnook.Sync.Policy.{
  is_ok, is_decision, is_boolean, is_set, fail_closed, boolean_fields_valid, attempted_mutation,
  remote_mutation, decision_flags, success_invariants_hold, success_outcome, classify_success,
  classify_time, classify_dns, classify_https, classify_protocol, is_unreadable, local_mutation,
  is_contradictory, classify_status, classify,
}

unfoldable pub is_confirmed : Mutation → Bool
is_confirmed Mutation.confirmed = true
is_confirmed _ = false

unfoldable pub is_uploaded : Outcome → Bool
is_uploaded Outcome.uploaded = true
is_uploaded _ = false

unfoldable pub is_imported : Outcome → Bool
is_imported Outcome.imported = true
is_imported _ = false

-- The confirmed changes of a result are those its outcome names.
unfoldable pub IsHonest : ProductResult → Type 0
IsHonest result =
    (is_confirmed result.remote_mutation ≡ is_uploaded result.outcome)
    × (is_confirmed result.local_mutation ≡ is_imported result.outcome)

-- A result that reports no confirmed change.
unfoldable pub IsQuiet : ProductResult → Type 0
IsQuiet result =
    (is_confirmed result.remote_mutation ≡ false) × (is_confirmed result.local_mutation ≡ false)

time-IsHonest :
    (code : TimeResult) (result : ProductResult)
    → IsQuiet result
    → IsHonest (classify_time code result)
unfolding classify_time fail_closed is_confirmed is_uploaded is_imported IsHonest IsQuiet
time-IsHonest code result quiet = elim code as (λ k. IsHonest (classify_time k result)) [
  | TimeResult.out_of_range ↦ (refl, refl)
  | TimeResult.ok ↦ (refl, refl)
  | _ ↦ quiet
]

dns-IsHonest :
    (code : DnsResult) (result : ProductResult)
    → IsQuiet result
    → IsHonest (classify_dns code result)
unfolding classify_dns fail_closed is_confirmed is_uploaded is_imported IsHonest IsQuiet
dns-IsHonest code result quiet = elim code as (λ k. IsHonest (classify_dns k result)) [
  | DnsResult.out_of_range ↦ (refl, refl)
  | DnsResult.ok ↦ (refl, refl)
  | _ ↦ quiet
]

https-IsHonest :
    (code : Transport) (result : ProductResult)
    → IsQuiet result
    → IsHonest (classify_https code result)
unfolding classify_https fail_closed is_confirmed is_uploaded is_imported IsHonest IsQuiet
https-IsHonest code result quiet = elim code as (λ k. IsHonest (classify_https k result)) [
  | Transport.out_of_range ↦ (refl, refl)
  | Transport.ok ↦ (refl, refl)
  | _ ↦ quiet
]

protocol-IsHonest :
    (code : KosyncResult) (status : ℕ) (result : ProductResult)
    → IsQuiet result
    → IsHonest (classify_protocol code status result)
unfolding classify_protocol fail_closed is_confirmed is_uploaded is_imported IsHonest IsQuiet
protocol-IsHonest code status result quiet =
    elim code as (λ k. IsHonest (classify_protocol k status result)) [
      | KosyncResult.http_error ↦ quiet
      | KosyncResult.bad_json ↦ quiet
      | KosyncResult.bad_protocol ↦ quiet
      | _ ↦ (refl, refl)
    ]

-- What the flags say of a run that contradicts nothing.
measured : SyncResult → ProductResult
measured sync = record fail_closed {
  local_mutation = local_mutation sync;
  remote_mutation = remote_mutation sync;
}

attempted_quiet :
    (status : SyncStatus) (transport : Transport)
    → is_confirmed (attempted_mutation status transport) ≡ false
unfolding attempted_mutation is_confirmed
attempted_quiet status transport = ground arith

remote_confirmed :
    (sync : SyncResult) → is_confirmed (remote_mutation sync) ≡ is_set sync.remote_uploaded
unfolding remote_mutation is_confirmed
remote_confirmed sync = ground (arith, attempted_quiet sync.status sync.transport_result)

local_confirmed : (sync : SyncResult) → is_confirmed (local_mutation sync) ≡ is_set sync.local_saved
unfolding local_mutation is_confirmed
local_confirmed sync = ground arith

invariants_flags :
    (sync : SyncResult)
    → success_invariants_hold sync ≡ true
    → decision_flags sync.decision sync ≡ true
unfolding success_invariants_hold
invariants_flags sync h = ground arith

outcome-IsHonest :
    (decision : Decision) (sync : SyncResult)
    → decision_flags decision sync ≡ true
    → IsHonest (success_outcome decision (measured sync))
unfolding decision_flags success_outcome IsHonest is_uploaded is_imported measured fail_closed
    is_confirmed
outcome-IsHonest Decision.no_state sync flags =
    (remote_confirmed sync ∙ ground arith, local_confirmed sync ∙ ground arith)
outcome-IsHonest Decision.local_selected sync flags =
    (remote_confirmed sync ∙ ground arith, local_confirmed sync ∙ ground arith)
outcome-IsHonest Decision.remote_selected sync flags =
    (remote_confirmed sync ∙ ground arith, local_confirmed sync ∙ ground arith)
outcome-IsHonest Decision.no_change sync flags =
    (remote_confirmed sync ∙ ground arith, local_confirmed sync ∙ ground arith)
outcome-IsHonest Decision.ambiguous sync flags =
    (remote_confirmed sync ∙ ground arith, local_confirmed sync ∙ ground arith)
outcome-IsHonest Decision.decision_none sync flags = (refl, refl)
outcome-IsHonest Decision.out_of_range sync flags = (refl, refl)

success-IsHonest : (sync : SyncResult) → IsHonest (classify_success sync (measured sync))
unfolding classify_success fail_closed IsHonest is_confirmed is_uploaded is_imported
success-IsHonest sync = elim (Bool-cases (success_invariants_hold sync)) [
  | inl holds ↦ rw holds (outcome-IsHonest sync.decision sync (invariants_flags sync holds))
  | inr fails ↦ rw fails (refl, refl)
]

-- A run that is not ok and contradicts nothing confirmed no change.
unwritten :
    (sync : SyncResult) (ok : Bool)
    → ((not ok) && (is_set sync.local_saved || is_set sync.remote_uploaded)) ≡ false
    → ok ≡ false
    → IsQuiet (measured sync)
unfolding IsQuiet measured
unwritten sync ok h not_ok =
    (remote_confirmed sync ∙ ground arith, local_confirmed sync ∙ ground arith)

status-IsHonest :
    (status : SyncStatus) (sync : SyncResult)
    → (not (is_ok status) && (is_set sync.local_saved || is_set sync.remote_uploaded)) ≡ false
    → IsHonest (classify_status status sync (measured sync)).1
unfolding classify_status IsHonest is_uploaded is_imported IsQuiet measured fail_closed is_confirmed
status-IsHonest SyncStatus.ok sync h = success-IsHonest sync
status-IsHonest SyncStatus.trusted_time_failed sync h =
    time-IsHonest sync.time_result _ (unwritten sync false h refl)
status-IsHonest SyncStatus.dns_failed sync h =
    dns-IsHonest sync.dns_result _ (unwritten sync false h refl)
status-IsHonest SyncStatus.https_failed sync h =
    https-IsHonest sync.transport_result _ (unwritten sync false h refl)
status-IsHonest SyncStatus.protocol_failed sync h =
    protocol-IsHonest sync.kosync_result sync.http_status _ (unwritten sync false h refl)
status-IsHonest SyncStatus.invalid sync h = unwritten sync false h refl
status-IsHonest SyncStatus.identity_failed sync h = unwritten sync false h refl
status-IsHonest SyncStatus.local_failed sync h = unwritten sync false h refl
status-IsHonest SyncStatus.local_unsupported sync h = unwritten sync false h refl
status-IsHonest SyncStatus.auth_failed sync h = unwritten sync false h refl
status-IsHonest SyncStatus.no_memory sync h = unwritten sync false h refl
status-IsHonest SyncStatus.out_of_range sync h = (refl, refl)

-- The flags are consistent with one another and with the status.
consistent :
    (sync : SyncResult)
    → is_contradictory sync ≡ false
    → (not (is_ok sync.status) && (is_set sync.local_saved || is_set sync.remote_uploaded)) ≡ false
unfolding is_contradictory
consistent sync h = ground arith

-- Whatever the result of the run, a classification reports a confirmed change of the server
-- exactly when its outcome is `uploaded`, and a confirmed change of the local store exactly when
-- its outcome is `imported`.
pub classify-IsHonest :
    (enabled : ℕ) (sync : Option SyncResult) → IsHonest (classify enabled sync).1
unfolding classify IsHonest fail_closed is_confirmed is_uploaded is_imported measured
classify-IsHonest enabled none = ground arith
classify-IsHonest enabled (some sync) =
    if_both P (not (is_boolean enabled)) (λ h. (refl, refl))
      λ h.
        if_both P (not (is_set enabled)) (λ h. (refl, refl))
          λ h.
            if_both P
              (not (boolean_fields_valid sync)
                || (is_unreadable sync.status sync || not (is_decision sync.decision)))
              (λ h. (refl, refl))
              λ h.
                if_both P (is_contradictory sync) (λ h. (refl, refl))
                  λ h. status-IsHonest sync.status sync (consistent sync h)
  where
    P : Bool × ProductResult → Type 0
    P answer = IsHonest answer.1

-- ===== src/Sync/Run/Unwritten.antt =====
-- `src/sync/kosync_policy.c`: the classification of a run that confirmed no change.
use crossnook.Base.{ℕ, ◌≡◌, refl, arith, Bool, if_both, true, false, not, ◌||◌, some}
use crossnook.Sync.Types.{
  SyncStatus, Decision, TimeResult, DnsResult, Transport, KosyncResult, SyncResult, Outcome,
  ProductResult,
}
use crossnook.Sync.Policy.{
  is_decision, is_set, fail_closed, boolean_fields_valid, decision_flags, success_invariants_hold,
  success_outcome, classify_success, classify_time, classify_dns, classify_https, classify_protocol,
  is_unreadable, is_contradictory, classify_status, classify,
}
use crossnook.Sync.Policy.Confirmed.{is_uploaded, is_imported}

-- The outcome names no change.
unfoldable pub IsUnwritten : ProductResult → Type 0
IsUnwritten result = (is_uploaded result.outcome ≡ false) × (is_imported result.outcome ≡ false)

module _ (result : ProductResult) where
  time-IsUnwritten : (code : TimeResult) → IsUnwritten (classify_time code result)
  unfolding classify_time fail_closed IsUnwritten is_uploaded is_imported
  time-IsUnwritten code = elim code as (λ k. IsUnwritten (classify_time k result)) [
    | TimeResult.ok ↦ (refl, refl)
    | _ ↦ (refl, refl)
  ]

  dns-IsUnwritten : (code : DnsResult) → IsUnwritten (classify_dns code result)
  unfolding classify_dns fail_closed IsUnwritten is_uploaded is_imported
  dns-IsUnwritten code = elim code as (λ k. IsUnwritten (classify_dns k result)) [
    | DnsResult.ok ↦ (refl, refl)
    | _ ↦ (refl, refl)
  ]

  https-IsUnwritten : (code : Transport) → IsUnwritten (classify_https code result)
  unfolding classify_https fail_closed IsUnwritten is_uploaded is_imported
  https-IsUnwritten code = elim code as (λ k. IsUnwritten (classify_https k result)) [
    | Transport.ok ↦ (refl, refl)
    | _ ↦ (refl, refl)
  ]

  protocol-IsUnwritten :
      (code : KosyncResult) (status : ℕ) → IsUnwritten (classify_protocol code status result)
  unfolding classify_protocol fail_closed IsUnwritten is_uploaded is_imported
  protocol-IsUnwritten code status =
      elim code as (λ k. IsUnwritten (classify_protocol k status result)) [
        | KosyncResult.ok ↦ (refl, refl)
        | _ ↦ (refl, refl)
      ]

  outcome-IsUnwritten :
      (decision : Decision) (sync : SyncResult)
      → is_set sync.local_saved ≡ false
      → is_set sync.remote_uploaded ≡ false
      → decision_flags decision sync ≡ true
      → IsUnwritten (success_outcome decision result)
  unfolding decision_flags success_outcome fail_closed IsUnwritten is_uploaded is_imported
  outcome-IsUnwritten Decision.local_selected sync s u flags = absurd (ground arith)
  outcome-IsUnwritten Decision.remote_selected sync s u flags = absurd (ground arith)
  outcome-IsUnwritten Decision.no_state sync s u flags = (refl, refl)
  outcome-IsUnwritten Decision.no_change sync s u flags = (refl, refl)
  outcome-IsUnwritten Decision.ambiguous sync s u flags = (refl, refl)
  outcome-IsUnwritten Decision.decision_none sync s u flags = (refl, refl)
  outcome-IsUnwritten Decision.out_of_range sync s u flags = (refl, refl)

  flags_hold :
      (sync : SyncResult)
      → not (success_invariants_hold sync) ≡ false
      → decision_flags sync.decision sync ≡ true
  unfolding success_invariants_hold
  flags_hold sync h = ground arith

  success-IsUnwritten :
      (sync : SyncResult)
      → is_set sync.local_saved ≡ false
      → is_set sync.remote_uploaded ≡ false
      → IsUnwritten (classify_success sync result)
  unfolding classify_success fail_closed IsUnwritten is_uploaded is_imported
  success-IsUnwritten sync s u =
      if_both IsUnwritten (not (success_invariants_hold sync)) (λ h. (refl, refl))
        λ h. outcome-IsUnwritten sync.decision sync s u (flags_hold sync h)

  status-IsUnwritten :
      (status : SyncStatus) (sync : SyncResult)
      → is_set sync.local_saved ≡ false
      → is_set sync.remote_uploaded ≡ false
      → IsUnwritten (classify_status status sync result).1
  unfolding classify_status fail_closed IsUnwritten is_uploaded is_imported
  status-IsUnwritten status sync s u =
      elim status as (λ k. IsUnwritten (classify_status k sync result).1) [
        | SyncStatus.ok ↦ success-IsUnwritten sync s u
        | SyncStatus.trusted_time_failed ↦ time-IsUnwritten sync.time_result
        | SyncStatus.dns_failed ↦ dns-IsUnwritten sync.dns_result
        | SyncStatus.https_failed ↦ https-IsUnwritten sync.transport_result
        | SyncStatus.protocol_failed ↦ protocol-IsUnwritten sync.kosync_result sync.http_status
        | _ ↦ (refl, refl)
      ]

pub classify-IsUnwritten :
    (sync : SyncResult)
    → is_set sync.local_saved ≡ false
    → is_set sync.remote_uploaded ≡ false
    → IsUnwritten (classify 1 (some sync)).1
unfolding classify fail_closed IsUnwritten is_uploaded is_imported
classify-IsUnwritten sync s u =
    if_both P
      (not (boolean_fields_valid sync)
        || (is_unreadable sync.status sync || not (is_decision sync.decision)))
      (λ h. (refl, refl))
      λ h.
        if_both P (is_contradictory sync) (λ h. (refl, refl))
          λ h. status-IsUnwritten _ sync.status sync s u
  where
    P : Bool × ProductResult → Type 0
    P answer = IsUnwritten answer.1

-- A successful upload, and a successful import.
pub classify-uploaded :
    (sync : SyncResult)
    → sync.status ≡ SyncStatus.ok
    → sync.decision ≡ Decision.local_selected
    → sync.local_present ≡ 1
    → sync.remote_present ≡ 0
    → sync.local_save_attempted ≡ 0
    → sync.remote_put_attempted ≡ 1
    → sync.local_saved ≡ 0
    → sync.remote_uploaded ≡ 1
    → (classify 1 (some sync)).1.outcome ≡ Outcome.uploaded
unfolding classify boolean_fields_valid is_unreadable is_contradictory classify_status
    classify_success success_invariants_hold decision_flags success_outcome
classify-uploaded sync h0 h1 h2 h3 h4 h5 h6 h7 = ground arith

pub classify-imported :
    (sync : SyncResult)
    → sync.status ≡ SyncStatus.ok
    → sync.decision ≡ Decision.remote_selected
    → sync.local_present ≡ 0
    → sync.remote_present ≡ 1
    → sync.local_save_attempted ≡ 1
    → sync.remote_put_attempted ≡ 0
    → sync.local_saved ≡ 1
    → sync.remote_uploaded ≡ 0
    → (classify 1 (some sync)).1.outcome ≡ Outcome.imported
unfolding classify boolean_fields_valid is_unreadable is_contradictory classify_status
    classify_success success_invariants_hold decision_flags success_outcome
classify-imported sync h0 h1 h2 h3 h4 h5 h6 h7 = ground arith

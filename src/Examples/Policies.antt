-- ===== src/Examples/Policies.antt =====
-- Runs of `src/sync/kosync_policy.c`.
use crossnook.Base.{◌≡◌, refl, true, some, none, []}
use crossnook.KoreaderIdentity.{IdentityResult, document_id_init}
use crossnook.Sync.Types.{
  SyncStatus, Decision, TimeResult, DnsResult, Transport, KosyncResult, ProgressResult, SyncResult,
  Outcome, Retry, Mutation,
}
use crossnook.Sync.Policy.{
  classify, boolean_fields_valid, is_unreadable, is_contradictory, classify_status,
  classify_success, success_invariants_hold, decision_flags, success_outcome, local_mutation,
  remote_mutation, fail_closed,
}
use crossnook.Sync.Policy.Confirmed.{IsHonest, classify-IsHonest}
use crossnook.Sync.Policy.Retries.{IsRetried, classify-IsRetried}

-- A run that uploaded the local position.
abbrev uploaded_run : SyncResult
uploaded_run = record {
  status = SyncStatus.ok;
  decision = Decision.local_selected;
  local_present = 1;
  remote_present = 0;
  local_save_attempted = 0;
  remote_put_attempted = 1;
  local_saved = 0;
  remote_uploaded = 1;
  document_id = document_id_init;
  remote_progress = record {
    document_id = [];
    logical_position = none;
    progress_10000 = none;
    device = [];
    device_id = [];
    timestamp = 0;
    has_timestamp = 0;
  };
  local_identity_ok = 1;
  identity_result = IdentityResult.ok;
  local_load_result = ProgressResult.ok;
  local_save_result = ProgressResult.invalid;
  time_result = TimeResult.ok;
  dns_result = DnsResult.ok;
  kosync_result = KosyncResult.ok;
  put_timestamp = 1789908147;
  has_put_timestamp = 1;
  http_status = 200;
  transport_result = Transport.ok;
}

classify-uploaded_run : classify 1 (some uploaded_run) ≡ (
  true,
  record {
    outcome = Outcome.uploaded;
    retry = Retry.no_retry;
    local_mutation = Mutation.no_mutation;
    remote_mutation = Mutation.confirmed;
  },
)
unfolding classify boolean_fields_valid is_unreadable is_contradictory classify_status
    classify_success success_invariants_hold decision_flags success_outcome local_mutation
    remote_mutation fail_closed
classify-uploaded_run = refl

classify-IsHonest_example : IsHonest (classify 1 (some uploaded_run)).1
classify-IsHonest_example = classify-IsHonest 1 (some uploaded_run)

classify-IsRetried_example : IsRetried (classify 1 (some uploaded_run)).1
classify-IsRetried_example = classify-IsRetried 1 (some uploaded_run)

-- ===== src/Examples/Codes.antt =====
-- The names of the result codes.
use crossnook.Names.{
  identity_result_name, sync_status_name, sync_decision_name, product_outcome_name,
  retry_policy_name, mutation_state_name, time_result_name, dns_result_name, kosync_result_name,
  netsimple_result_name,
}
use crossnook.Names.Distinct.{IsTelling, names-IsTelling}

names-IsTelling_example :
    IsTelling identity_result_name 3 2 1
    × IsTelling sync_status_name 11 2 1
    × IsTelling sync_decision_name 6 2 1
    × IsTelling product_outcome_name 15 2 1
    × IsTelling retry_policy_name 3 2 1
    × IsTelling mutation_state_name 3 2 1
    × IsTelling time_result_name 20 2 1
    × IsTelling dns_result_name 14 2 1
    × IsTelling kosync_result_name 9 2 1
    × IsTelling netsimple_result_name 25 2 1
names-IsTelling_example = names-IsTelling 2 1

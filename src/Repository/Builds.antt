-- ===== src/Repository/Builds.antt =====
-- The builds, the events and the alerts of `InMemoryRepository`.
use docker_jenkins_orchestra.Prelude.{
  ℕ, String, Bool, Option, none, some, List, [], ◌∷◌, ◌++◌, any, ◌==◌, string_eq, if◌then◌else◌,
}
use docker_jenkins_orchestra.Prelude.Dict.{lookup, insert}
use docker_jenkins_orchestra.Models.Value.{Value}
use docker_jenkins_orchestra.Models.Build.{
  BuildStatus, build_status_eq, DynamicStatus, TeardownStatus, BuildJob, AppEvent, Alert,
}
use docker_jenkins_orchestra.Repository.State.{Repository}

-- One entry of the `fields` that an update carries.
pub data BuildField : Type 0 where
  stage error celery_task_id failure_site raw_log_excerpt : String → BuildField
  stage_history images service_ids : List String → BuildField
  error_detail failure_logs : Value → BuildField
  started_at finished_at last_polled_at updated_at : ℕ → BuildField
  inputs_ready : Bool → BuildField
  compose_snapshot : Value → BuildField
  workspace_snapshot git_commit_sha jenkins_queue_url : Option String → BuildField
  workspace_file_count : ℕ → BuildField
  workspace_archive_sha256 : Option String → BuildField
  jenkins_build_number : Option ℕ → BuildField
  dynamic_status : DynamicStatus → BuildField
  dynamic_run_id dynamic_dispatch_error dynamic_report_text : Option String → BuildField
  dynamic_initial_started dynamic_debug_started dynamic_retry_started : Bool → BuildField
  dynamic_retry_payload probe_result : Option Value → BuildField
  dynamic_check_passed : Option Bool → BuildField
  teardown_required : Bool → BuildField
  teardown_status : Option TeardownStatus → BuildField

unfoldable pub set_build_field : BuildField → BuildJob → BuildJob
set_build_field (BuildField.stage s) b = record b { stage = some s }
set_build_field (BuildField.error s) b = record b { error = some s }
set_build_field (BuildField.celery_task_id s) b = record b { celery_task_id = some s }
set_build_field (BuildField.failure_site s) b = record b { failure_site = some s }
set_build_field (BuildField.raw_log_excerpt s) b = record b { raw_log_excerpt = some s }
set_build_field (BuildField.stage_history h) b = record b { stage_history = h }
set_build_field (BuildField.images l) b = record b { images = l }
set_build_field (BuildField.service_ids l) b = record b { service_ids = l }
set_build_field (BuildField.error_detail v) b = record b { error_detail = some v }
set_build_field (BuildField.failure_logs v) b = record b { failure_logs = some v }
set_build_field (BuildField.started_at t) b = record b { started_at = some t }
set_build_field (BuildField.finished_at t) b = record b { finished_at = some t }
set_build_field (BuildField.last_polled_at t) b = record b { last_polled_at = some t }
set_build_field (BuildField.updated_at t) b = record b { updated_at = t }
set_build_field (BuildField.inputs_ready x) b = record b { inputs_ready = x }
set_build_field (BuildField.compose_snapshot v) b = record b { compose_snapshot = some v }
set_build_field (BuildField.workspace_snapshot v) b = record b { workspace_snapshot = v }
set_build_field (BuildField.git_commit_sha v) b = record b { git_commit_sha = v }
set_build_field (BuildField.jenkins_queue_url v) b = record b { jenkins_queue_url = v }
set_build_field (BuildField.workspace_file_count n) b = record b { workspace_file_count = n }
set_build_field (BuildField.workspace_archive_sha256 v) b = record b {
  workspace_archive_sha256 = v;
}
set_build_field (BuildField.jenkins_build_number v) b = record b { jenkins_build_number = v }
set_build_field (BuildField.dynamic_status s) b = record b { dynamic_status = s }
set_build_field (BuildField.dynamic_run_id v) b = record b { dynamic_run_id = v }
set_build_field (BuildField.dynamic_dispatch_error v) b = record b { dynamic_dispatch_error = v }
set_build_field (BuildField.dynamic_report_text v) b = record b { dynamic_report_text = v }
set_build_field (BuildField.dynamic_initial_started x) b = record b { dynamic_initial_started = x }
set_build_field (BuildField.dynamic_debug_started x) b = record b { dynamic_debug_started = x }
set_build_field (BuildField.dynamic_retry_started x) b = record b { dynamic_retry_started = x }
set_build_field (BuildField.dynamic_retry_payload v) b = record b { dynamic_retry_payload = v }
set_build_field (BuildField.probe_result v) b = record b { probe_result = v }
set_build_field (BuildField.dynamic_check_passed v) b = record b { dynamic_check_passed = v }
set_build_field (BuildField.teardown_required x) b = record b { teardown_required = x }
set_build_field (BuildField.teardown_status v) b = record b { teardown_status = v }

-- `existing.model_copy(update=fields)`; of two entries for one field the later one counts
unfoldable pub update_build_fields : List BuildField → BuildJob → BuildJob
unfolding set_build_field
update_build_fields [] b = b
update_build_fields (f ∷ fs) b = update_build_fields fs (set_build_field f b)

unfoldable pub create_build : BuildJob → Repository → Repository
create_build build r = record r { builds = insert build.build_id build r.builds }

unfoldable pub get_build : String → Repository → Option BuildJob
get_build build_id r = lookup build_id r.builds

abbrev pub store_build : String → BuildJob → Repository → Repository × Option BuildJob
store_build build_id updated r =
    (record r { builds = insert build_id updated r.builds }, some updated)

unfoldable pub update_build : String → List BuildField → Repository → Repository × Option BuildJob
update_build build_id fields r = elim (lookup build_id r.builds) [
  | none ↦ (r, none)
  | some existing ↦ store_build build_id (update_build_fields fields existing) r
]

-- `existing.model_copy(update={**fields, "status": status})`
unfoldable pub moved : BuildStatus → List BuildField → BuildJob → BuildJob
moved status fields existing = record (update_build_fields fields existing) { status = status }

unfoldable pub transition_build :
    String
    → List BuildStatus
    → BuildStatus
    → List BuildField
    → Repository
    → Repository × Option BuildJob
transition_build build_id expected status fields r = elim (lookup build_id r.builds) [
  | none ↦ (r, none)
  | some existing ↦
      if any (λ s. existing.status == s) expected
      then store_build build_id (moved status fields existing) r
      else (r, none)
]

unfoldable pub append_event : AppEvent → Repository → Repository
append_event event r = record r { events = r.events ++ event ∷ [] }

unfoldable pub create_alert : Alert → Repository → Repository
create_alert alert r = record r { alerts = insert alert.alert_id alert r.alerts }

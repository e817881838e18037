-- ===== src/Models/Build.antt =====
-- The build job, its events and its alerts.
use docker_jenkins_orchestra.Prelude.{
  ℕ, String, Bool, true, false, ◌≡◌, ◌↔◌, Option, List, arith, Eq,
}
use docker_jenkins_orchestra.Prelude.{nat_beq}
use docker_jenkins_orchestra.Models.Value.{Value}

pub data BuildStatus : Type 0 where
  queued validating triggering building deploying succeeded failed cancelled : BuildStatus

abbrev pub status_index : BuildStatus → ℕ
status_index queued = 0
status_index validating = 1
status_index triggering = 2
status_index building = 3
status_index deploying = 4
status_index succeeded = 5
status_index failed = 6
status_index cancelled = 7

pub status_index_iff :
    (a b : BuildStatus) → (nat_beq (status_index a) (status_index b) ≡ true) ↔ (a ≡ b)
status_index_iff a b = (λ h. ground arith, λ h. ground arith)

instance abbrev pub build_status_eq : Eq BuildStatus
build_status_eq = record {
  beq = λ a b. nat_beq (status_index a) (status_index b);
  beq_iff = status_index_iff;
}

-- `BuildStatus(...).value`
abbrev pub status_value : BuildStatus → String
status_value queued = "queued"
status_value validating = "validating"
status_value triggering = "triggering"
status_value building = "building"
status_value deploying = "deploying"
status_value succeeded = "succeeded"
status_value failed = "failed"
status_value cancelled = "cancelled"

-- `status in TERMINAL_BUILD_STATUSES`
abbrev pub is_terminal : BuildStatus → Bool
is_terminal succeeded = true
is_terminal failed = true
is_terminal cancelled = true
is_terminal _ = false

-- `status in ACTIVE_BUILD_STATUSES`
abbrev pub is_active : BuildStatus → Bool
is_active status = elim (is_terminal status) [ true ↦ false | false ↦ true ]

pub data DynamicStatus : Type 0 where
  pending queued running succeeded failed : DynamicStatus

pub data TeardownStatus : Type 0 where
  pending running succeeded partial_failed : TeardownStatus

pub record BuildJob : Type 0 where
  pub build_id : String
  pub appid : String
  pub git_ref : String
  pub inputs_ready : Bool
  pub git_commit_sha : Option String
  pub compose_snapshot : Option Value
  pub workspace_snapshot : Option String
  pub workspace_file_count : ℕ
  pub workspace_archive_sha256 : Option String
  pub status : BuildStatus
  pub celery_task_id : Option String
  pub jenkins_queue_url : Option String
  pub jenkins_build_number : Option ℕ
  pub images : List String
  pub service_ids : List String
  pub route_check_id : Option String
  pub route_check_generation : Option ℕ
  pub require_route_snapshot : Option String
  pub static_agent_role_version : Option ℕ
  pub dynamic_agent_role_version : Option ℕ
  pub route_probe_payload : Option Value
  pub route_dynamic_role_snapshot : Option Value
  pub static_check_passed : Option Bool
  pub dynamic_check_passed : Option Bool
  pub dynamic_status : DynamicStatus
  pub dynamic_run_id : Option String
  pub dynamic_initial_started : Bool
  pub dynamic_debug_started : Bool
  pub dynamic_retry_started : Bool
  pub dynamic_retry_payload : Option Value
  pub dynamic_dispatch_error : Option String
  pub teardown_required : Bool
  pub teardown_status : Option TeardownStatus
  pub dynamic_report_text : Option String
  pub probe_result : Option Value
  pub error : Option String
  pub error_detail : Option Value
  pub raw_log_excerpt : Option String
  pub failure_logs : Option Value
  pub failure_site : Option String
  pub stage : Option String
  pub stage_history : List String
  pub started_at : Option ℕ
  pub finished_at : Option ℕ
  pub last_polled_at : Option ℕ
  pub created_at : ℕ
  pub updated_at : ℕ

pub data EventLevel : Type 0 where
  info warning error : EventLevel

pub record AppEvent : Type 0 where
  pub event_id : String
  pub appid : String
  pub build_id : Option String
  pub kind : String
  pub level : EventLevel
  pub message : String
  pub details : List (String × Value)
  pub created_at : ℕ

pub record Alert : Type 0 where
  pub alert_id : String
  pub appid : String
  pub build_id : Option String
  pub severity : String
  pub message : String
  pub resolved_at : Option ℕ
  pub created_at : ℕ

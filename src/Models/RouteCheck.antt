-- ===== src/Models/RouteCheck.antt =====
-- The static route checks, and the agent roles whose versions they carry.
use docker_jenkins_orchestra.Prelude.{
  ℕ, String, Bool, true, ◌≡◌, ◌↔◌, Option, List, arith, Eq, nat_beq,
}
use docker_jenkins_orchestra.Models.Value.{Value}

pub data StaticStatus : Type 0 where
  queued running succeeded failed : StaticStatus

abbrev pub static_index : StaticStatus → ℕ
static_index queued = 0
static_index running = 1
static_index succeeded = 2
static_index failed = 3

pub static_index_iff :
    (a b : StaticStatus) → (nat_beq (static_index a) (static_index b) ≡ true) ↔ (a ≡ b)
static_index_iff a b = (λ h. ground arith, λ h. ground arith)

instance abbrev pub static_status_eq : Eq StaticStatus
static_status_eq = record {
  beq = λ a b. nat_beq (static_index a) (static_index b);
  beq_iff = static_index_iff;
}

pub data CheckDynamicStatus : Type 0 where
  pending queued running succeeded failed skipped : CheckDynamicStatus

pub record RouteCheckResult : Type 0 where
  pub id : ℕ
  pub check_id : String
  pub app_id : String
  pub commit_id : String
  pub require_route : String
  pub static_agent_role_version : ℕ
  pub dynamic_agent_role_version : ℕ
  pub generation : ℕ
  pub repository_url : String
  pub git_ref : String
  pub static_role_snapshot : Value
  pub dynamic_role_snapshot : Value
  pub static_task_id : Option String
  pub static_run_token : Option String
  pub static_lease_expires_at : Option ℕ
  pub dispatch_error : Option String
  pub dynamic_build_id : Option String
  pub dynamic_run_id : Option String
  pub static_status : StaticStatus
  pub dynamic_status : CheckDynamicStatus
  pub diff_list : List String
  pub probe_payload : Option Value
  pub static_report_text : Option String
  pub static_check_passed : Option Bool
  pub probe_result : Option Value
  pub dynamic_report_text : Option String
  pub dynamic_check_passed : Option Bool
  pub created_at : ℕ
  pub updated_at : ℕ

-- ===== src/RouteChecks/Execute.antt =====
-- `execute_static` of orchestrator/route_checks.py.
pub mod Newer
use docker_jenkins_orchestra.Prelude.{
  ℕ, zero, suc, ◌+◌, ◌-◌, ◌*◌, ◌/◌, ◌%◌, ◌^◌, ◌≤◌, ◌<◌, String, ◌≡◌, refl, sym, ap, ◌∙◌, ◌≢◌, ◌↔◌,
  ◌⊎◌, inl, inr, Bool, true, false, not, ◌&&◌, ◌||◌, Option, none, some, List, [], ◌∷◌, ◌++◌, map,
  arith, eq_iff, ltb, leb, nat_beq, if◌then◌else◌, nat_beq_iff, leb_iff, ltb_iff, Eq, ◌==◌, nat_eq,
  string_eq, concat, Bool-cases, Option-cases, is_some, ==-refl, option_eq, pair_eq, length, take,
  drop, all, any, length-append, length-take, length-drop, All, All-append,
}
use docker_jenkins_orchestra.Prelude.Dict.{lookup}
use docker_jenkins_orchestra.Text.Strings.{strip, prefix}
use docker_jenkins_orchestra.Models.Value.{Value}
use docker_jenkins_orchestra.Models.RouteCheck.{RouteCheckResult, StaticStatus}
use docker_jenkins_orchestra.Repository.State.{Repository}
use docker_jenkins_orchestra.Repository.RouteChecks.{
  CheckField, CheckExpectation, update_route_check,
}
use docker_jenkins_orchestra.RouteChecks.{stored_check}
use docker_jenkins_orchestra.RouteChecks.Commit.{lowered}
use docker_jenkins_orchestra.RouteChecks.Lease.{claim_check, guard_check}
use docker_jenkins_orchestra.RouteChecks.Outcome.{static_outcome}
use docker_jenkins_orchestra.World.{
  Action, World, Result, ok, err, Error, pure, raise, lift, get_repository, utc_now, attempt, ◌>>=◌,
  ◌>>◌,
}

-- What a run meets outside the program: the version in the role's snapshot, the commit that GitLab
-- resolves, the head of the checkout before and after the agent, the agent's output, the
-- difference of the checkout, whether the heartbeat has lost the lease at each guard; and what the
-- other workers do to the repository before the agent, during it and after it. An `adapter_error`
-- stands for an `AgentExecutionError` or a `GitLabError`.
pub record StaticRun : Type 0 where
  pub role_version : Result ℕ
  pub resolved : Result String
  pub head : Result String
  pub output : Result Value
  pub actual_diff : Result String
  pub head_after : Result String
  pub lost_before : Bool
  pub lost_after : Bool
  pub others_before : Repository → Repository
  pub others_during : Repository → Repository
  pub others_after : Repository → Repository

abbrev pub others : (Repository → Repository) → Action (Unit {0})
others change w = (ok tt, record w { repository = change w.repository })

abbrev pub refuse_static : Bool → String → Action (Unit {0})
refuse_static true message = raise (Error.route_check_input message)
refuse_static false message = pure tt

-- the status of a check, as its value
abbrev pub status_text : StaticStatus → String
status_text StaticStatus.queued = "queued"
status_text StaticStatus.running = "running"
status_text StaticStatus.succeeded = "succeeded"
status_text StaticStatus.failed = "failed"

abbrev pub failed_fields : String → List CheckField
failed_fields report =
    CheckField.static_status StaticStatus.failed
    ∷ CheckField.static_check_passed (some false)
    ∷ CheckField.static_report_text (some (prefix 4000 report))
    ∷ []

-- the `except` clauses: `none` where the run is superseded
abbrev pub static_failure : Error → Action (Option (List CheckField))
static_failure (Error.key_error message) = pure none
static_failure (Error.route_check_conflict message) = pure none
static_failure (Error.adapter_error message) = pure (some (failed_fields message))
static_failure (Error.route_check_input message) = pure (some (failed_fields message))
static_failure e = pure (some (failed_fields "静态检查执行失败；请检查 Agent 输出和运行环境"))

abbrev pub saved_status : Option RouteCheckResult → String
saved_status none = "superseded"
saved_status (some check) = status_text check.static_status

-- the last update of a run
unfoldable pub save_static : RouteCheckResult → Option (List CheckField) → Action String
save_static owned none = pure "superseded"
save_static owned (some fields) = do
  now ← utc_now
  saved ←
      update_route_check owned.check_id
        (fields
          ++ (CheckField.static_run_token none
              ∷ CheckField.static_lease_expires_at none
              ∷ CheckField.updated_at now
              ∷ []))
        (CheckExpectation.generation_is owned.generation
          ∷ CheckExpectation.static_run_token_is owned.static_run_token
          ∷ CheckExpectation.static_status_is StaticStatus.running
          ∷ [])
  pure (saved_status saved)

module _ (validate_probe_payload : Value → String → Result Value) (lease_seconds : ℕ) where
  unfoldable pub inspect : StaticRun → RouteCheckResult → Action (List CheckField)
  inspect run owned = do
    version ← lift run.role_version
    refuse_static (not (version == owned.static_agent_role_version))
        "Static agent role snapshot version does not match the job"
    commit ← lift run.resolved
    refuse_static (not (lowered commit == owned.commit_id))
        "Static checkout commit does not match the queued immutable commit"
    head ← lift run.head
    refuse_static (not (lowered (strip head) == owned.commit_id))
        "Static checkout is not pinned to the requested commit"
    others run.others_before
    guard_check run.lost_before owned
    output ← lift run.output
    others run.others_during
    guard_check run.lost_after owned
    actual_diff ← lift run.actual_diff
    head_after ← lift run.head_after
    lift (
        static_outcome validate_probe_payload owned.require_route output actual_diff
          (not (lowered (strip head_after) == owned.commit_id)))

  abbrev pub run_static : StaticRun → String → Option RouteCheckResult → Action String
  run_static run check_id none = do
    check ← stored_check check_id
    pure (status_text check.static_status)
  run_static run check_id (some owned) = do
    fields ← attempt (do found ← inspect run owned; pure (some found)) static_failure
    others run.others_after
    save_static owned fields

  abbrev pub is_superseded : Option ℕ → RouteCheckResult → Bool
  is_superseded none check = false
  is_superseded (some generation) check = not (check.generation == generation)

  abbrev pub execute_found : StaticRun → String → Option ℕ → Option RouteCheckResult → Action String
  execute_found run check_id generation none = pure "deleted"
  execute_found run check_id generation (some check) =
      if is_superseded generation check
      then pure "superseded"
      else (do lease ← claim_check lease_seconds check; run_static run check_id lease)

  -- the status of the answer
  unfoldable pub execute_static : StaticRun → String → Option ℕ → Action String
  execute_static run check_id generation = do
    r ← get_repository
    execute_found run check_id generation (lookup check_id r.route_checks)

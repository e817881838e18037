-- ===== src/RouteChecks/Submit.antt =====
-- `create_or_reuse`, `submit`, `schedule_for_app` and `recover` of orchestrator/route_checks.py.
use docker_jenkins_orchestra.Prelude.{
  ℕ, zero, suc, ◌+◌, ◌-◌, ◌*◌, ◌%◌, ◌^◌, String, Bool, true, false, not, ◌||◌, Option, none, some,
  List, [], ◌∷◌, if◌then◌else◌, ◌==◌, nat_eq, string_eq, is_some, option_eq, pair_eq,
}
use docker_jenkins_orchestra.Text.{codes}
use docker_jenkins_orchestra.Naming.{is_digit, lower}
use docker_jenkins_orchestra.Models.Value.{Value}
use docker_jenkins_orchestra.Models.App.{UserAppRecord, AgentRole}
use docker_jenkins_orchestra.Models.RouteCheck.{RouteCheckResult, StaticStatus, CheckDynamicStatus}
use docker_jenkins_orchestra.Repository.RouteChecks.{
  CheckField, CheckExpectation, ensure_route_check, update_route_check,
}
use docker_jenkins_orchestra.RouteChecks.{
  get_role, stored_check, or_stored, given, static_role_key, dynamic_role_key,
}
use docker_jenkins_orchestra.RouteChecks.Commit.{is_sha, lowered, ResolveRef, resolve_commit}
use docker_jenkins_orchestra.World.{
  Action, Error, Task, pure, raise, lift, utc_now, uuid4, dispatch, ◌>>=◌,
}

pub record StaticCheckSubmission : Type 0 where
  pub check_id : String
  pub task_id : Option String
  pub queued : Bool
  pub cache_hit : Bool
  pub message : String
  pub result : RouteCheckResult

abbrev pub hex_value : ℕ → List ℕ → ℕ
hex_value n [] = n
hex_value n (c ∷ cs) =
    hex_value (n * 16 + (if is_digit c then c - b'0' else lower c - b'a' + 10)) cs

-- `uuid4().int & ((1 << 63) - 1)`
abbrev pub id_of : String → ℕ
id_of hex = hex_value 0 (codes hex) % 2 ^ 63

abbrev pub cache_message : Option Bool → String
cache_message (some true) = "命中已成功的历史缓存, 成功并跳过"
cache_message (some false) = "命中已失败的检查结果缓存, 未执行静态检查"
cache_message none = "静态检查任务已提交"

abbrev pub is_pending : StaticStatus → Bool
is_pending StaticStatus.queued = true
is_pending StaticStatus.running = true
is_pending _ = false

-- the submission of a check that is there already
abbrev pub cached : RouteCheckResult → StaticCheckSubmission
cached result = record {
  check_id = result.check_id;
  task_id = result.static_task_id;
  queued = is_pending result.static_status;
  cache_hit = is_some result.static_check_passed;
  message = cache_message result.static_check_passed;
  result = result;
}

-- what a forced run sets back
unfoldable pub reset_fields : RouteCheckResult → ℕ → ℕ → List CheckField
reset_fields candidate generation now =
    CheckField.dynamic_agent_role_version candidate.dynamic_agent_role_version
    ∷ CheckField.repository_url candidate.repository_url
    ∷ CheckField.git_ref candidate.git_ref
    ∷ CheckField.static_role_snapshot candidate.static_role_snapshot
    ∷ CheckField.dynamic_role_snapshot candidate.dynamic_role_snapshot
    ∷ CheckField.static_task_id candidate.static_task_id
    ∷ CheckField.static_run_token candidate.static_run_token
    ∷ CheckField.static_lease_expires_at candidate.static_lease_expires_at
    ∷ CheckField.dispatch_error candidate.dispatch_error
    ∷ CheckField.dynamic_build_id candidate.dynamic_build_id
    ∷ CheckField.dynamic_run_id candidate.dynamic_run_id
    ∷ CheckField.static_status candidate.static_status
    ∷ CheckField.dynamic_status candidate.dynamic_status
    ∷ CheckField.diff_list candidate.diff_list
    ∷ CheckField.probe_payload candidate.probe_payload
    ∷ CheckField.static_report_text candidate.static_report_text
    ∷ CheckField.static_check_passed candidate.static_check_passed
    ∷ CheckField.probe_result candidate.probe_result
    ∷ CheckField.dynamic_report_text candidate.dynamic_report_text
    ∷ CheckField.dynamic_check_passed candidate.dynamic_check_passed
    ∷ CheckField.generation generation
    ∷ CheckField.updated_at now
    ∷ []

-- the ten attempts of a forced run to start a new generation
unfoldable pub restart : RouteCheckResult → ℕ → RouteCheckResult → Action RouteCheckResult
restart candidate zero result =
    raise (Error.route_check_conflict "Static check changed concurrently; retry submission")
restart candidate (suc attempts) result = do
  now ← utc_now
  updated ←
      update_route_check result.check_id (reset_fields candidate (result.generation + 1) now)
        (CheckExpectation.generation_is result.generation ∷ [])
  elim updated [
    | some check ↦ pure check
    | none ↦ (do latest ← stored_check result.check_id; restart candidate attempts latest)
  ]

abbrev pub enqueued : RouteCheckResult → Option String → Action StaticCheckSubmission
enqueued check none = do
  _ ←
      update_route_check check.check_id
        (CheckField.dispatch_error (some "Unable to enqueue static check") ∷ [])
        (CheckExpectation.generation_is check.generation ∷ [])
  raise (
      Error.route_check_unavailable
        "Unable to enqueue static check; the saved task will be recovered")
enqueued check (some task_id) = do
  updated ←
      update_route_check check.check_id
        (CheckField.static_task_id (some task_id) ∷ CheckField.dispatch_error none ∷ [])
        (CheckExpectation.generation_is check.generation ∷ [])
  result ← or_stored check.check_id updated
  pure (record {
    check_id = result.check_id;
    task_id = some task_id;
    queued = true;
    cache_hit = false;
    message = "静态检查任务已提交";
    result = result;
  })

unfoldable pub enqueue : RouteCheckResult → Action StaticCheckSubmission
enqueue check = do
  sent ← dispatch (Task.static_route_check check.check_id check.generation)
  enqueued check sent

-- `dump_role` is the JSON form of a role that its model gives.
module _ (dump_role : AgentRole → Value) where
  unfoldable pub new_check :
      UserAppRecord → String → String → AgentRole → AgentRole → Action RouteCheckResult
  new_check app commit_id route static_role dynamic_role = do
    check_id ← uuid4
    number ← uuid4
    created_at ← utc_now
    updated_at ← utc_now
    pure (record {
      id = id_of number;
      check_id = check_id;
      app_id = app.appid;
      commit_id = lowered commit_id;
      require_route = route;
      static_agent_role_version = static_role.agent_role_version;
      dynamic_agent_role_version = dynamic_role.agent_role_version;
      generation = 1;
      repository_url = app.repository_url;
      git_ref = app.git_ref;
      static_role_snapshot = dump_role static_role;
      dynamic_role_snapshot = dump_role dynamic_role;
      static_task_id = none;
      static_run_token = none;
      static_lease_expires_at = none;
      dispatch_error = none;
      dynamic_build_id = none;
      dynamic_run_id = none;
      static_status = StaticStatus.queued;
      dynamic_status = CheckDynamicStatus.pending;
      diff_list = [];
      probe_payload = none;
      static_report_text = none;
      static_check_passed = none;
      probe_result = none;
      dynamic_report_text = none;
      dynamic_check_passed = none;
      created_at = created_at;
      updated_at = updated_at;
    })

  abbrev pub run_check :
      RouteCheckResult → Bool → RouteCheckResult × Bool → Action StaticCheckSubmission
  run_check candidate force (result, true) = enqueue result
  run_check candidate true (result, false) = do check ← restart candidate 10 result; enqueue check
  run_check candidate false (result, false) = pure (cached result)

  abbrev pub create_for_route :
      UserAppRecord → String → Bool → Option String → Action StaticCheckSubmission
  create_for_route app commit_id force none =
      raise
        (Error.route_check_input "A route, repository and full immutable commit SHA are required")
  create_for_route app commit_id force (some route) =
      if app.repository_url == "" || not (is_sha commit_id)
      then raise
          (Error.route_check_input "A route, repository and full immutable commit SHA are required")
      else (do
        static_role ← get_role static_role_key
        dynamic_role ← get_role dynamic_role_key
        candidate ← new_check app commit_id route static_role dynamic_role
        stored ← ensure_route_check candidate
        run_check candidate force stored)

  unfoldable pub create_or_reuse : UserAppRecord → String → Bool → Action StaticCheckSubmission
  create_or_reuse app commit_id force =
      create_for_route app commit_id force (given app.require_route)

  -- `gitlab` is the adapter, if one is configured.
  module _ (gitlab : Option ResolveRef) where
    abbrev pub submit_for :
        UserAppRecord → Option String → Bool → Option String → Action StaticCheckSubmission
    submit_for app commit_id force none =
        raise (Error.route_check_input "App require_route is not configured")
    submit_for app commit_id force (some route) = do
      commit ← lift (resolve_commit gitlab app commit_id)
      create_or_reuse app commit force

    unfoldable pub submit : UserAppRecord → Option String → Bool → Action StaticCheckSubmission
    submit app commit_id force = submit_for app commit_id force (given app.require_route)

    -- `commit_id or self.resolve_commit(app)`
    abbrev pub commit_or_resolved : UserAppRecord → Option String → Action String
    commit_or_resolved app none = lift (resolve_commit gitlab app none)
    commit_or_resolved app (some commit) = pure commit

    abbrev pub schedule_for :
        UserAppRecord → Option String → Option String → Action (Option StaticCheckSubmission)
    schedule_for app commit_id none = pure none
    schedule_for app commit_id (some route) = do
      commit ← commit_or_resolved app (given commit_id)
      submission ← create_or_reuse app commit false
      pure (some submission)

    unfoldable pub schedule_for_app :
        UserAppRecord → Option String → Action (Option StaticCheckSubmission)
    schedule_for_app app commit_id = schedule_for app commit_id (given app.require_route)

-- ===== src/Services/Queue.antt =====
-- `BuildService.queue_build` of orchestrator/services.py: a build is admitted by the gate of its
-- route, its inputs are prepared under the lease of its resources, and it is sent to a worker.
pub mod Prepare
pub mod Gated
use docker_jenkins_orchestra.Prelude.{
  ℕ, zero, suc, ◌+◌, ◌-◌, ◌*◌, ◌/◌, ◌%◌, ◌^◌, ◌≤◌, ◌<◌, String, ◌≡◌, refl, sym, ap, ◌∙◌, ◌≢◌, ◌↔◌,
  ◌⊎◌, inl, inr, Bool, true, false, not, ◌&&◌, ◌||◌, Option, none, some, List, [], ◌∷◌, ◌++◌, map,
  arith, eq_iff, ltb, leb, nat_beq, if◌then◌else◌, nat_beq_iff, leb_iff, ltb_iff, Eq, ◌==◌, nat_eq,
  string_eq, concat, Bool-cases, Option-cases, is_some, ==-refl, option_eq, pair_eq, length, take,
  drop, all, any, length-append, length-take, length-drop, All, All-append,
}
use docker_jenkins_orchestra.Prelude.Dict.{lookup}
use docker_jenkins_orchestra.Text.{codes, printable}
use docker_jenkins_orchestra.Naming.{Named, named, naming_error, build_namespace}
use docker_jenkins_orchestra.Models.Value.{
  Value, str, bool, mapping, end, entry, entry_list, get_key, is_mapping,
}
use docker_jenkins_orchestra.Models.App.{UserAppRecord, AgentRole}
use docker_jenkins_orchestra.Models.Build.{BuildJob, BuildStatus, DynamicStatus}
use docker_jenkins_orchestra.Models.Resources.{
  BuildResources, CleanupStatus, ResourceKind, ResourceState,
}
use docker_jenkins_orchestra.Models.RouteCheck.{RouteCheckResult}
use docker_jenkins_orchestra.Repository.State.{Repository}
use docker_jenkins_orchestra.Repository.Builds.{BuildField}
use docker_jenkins_orchestra.RouteChecks.Commit.{ResolveRef, resolve_commit, ref_or}
use docker_jenkins_orchestra.RouteChecks.Gate.{require_static_pass}
use docker_jenkins_orchestra.Services.Failure.{FailureReport}
use docker_jenkins_orchestra.Tracker.{ResourceReport}
use docker_jenkins_orchestra.World.{
  Action, Result, Error, pure, raise, lift, get_repository, utc_now, uuid4, ◌>>=◌,
}

-- `ApplicationService.get_record`
abbrev pub app_or_missing : Option UserAppRecord → Action UserAppRecord
app_or_missing none = raise (Error.not_found "App not found")
app_or_missing (some app) = pure app

unfoldable pub get_record : String → Action UserAppRecord
get_record appid = do r ← get_repository; app_or_missing (lookup appid r.apps)

-- whether `services` is a mapping of mappings that is not empty
abbrev pub is_service_map : Value → Bool
is_service_map (mapping (entry k v es)) =
    all (λ (p : String × Value). is_mapping p.1) (entry_list (entry k v es))
is_service_map v = false

abbrev pub has_services : Option Value → Bool
has_services none = false
has_services (some compose) = is_service_map (get_key "services" compose)

abbrev pub input_error {ℓ} : {A : Type ℓ} → Error → Action A
input_error (Error.route_check_input message) = raise (Error.build_input message)
input_error e = raise e

-- the commit and the check that the gate of the application lets through
unfoldable pub admit :
    Option ResolveRef → UserAppRecord → Option String → Action (String × RouteCheckResult)
admit gitlab app git_ref = do
  commit ← lift (resolve_commit gitlab app git_ref)
  checked ← require_static_pass app commit none
  pure (commit, checked)

-- `{"failure_site": "precheck", "summary": …, "recognized": True, "build_id": …}`
abbrev pub precheck_failure : String → String → FailureReport
precheck_failure build_id summary = record {
  error_detail = some (
      mapping (
        entry "failure_site" (str "precheck") (
          entry "summary" (str summary)
            (entry "recognized" (bool true) (entry "build_id" (str build_id) end)))));
  raw_log_excerpt = none;
  failure_logs = none;
  failure_site = some "precheck";
}

abbrev pub workspace_report : String → ResourceState → ResourceReport
workspace_report path state = record {
  kind = ResourceKind.workspace;
  name = path;
  target = "workspace";
  native_id = none;
  state = state;
  managed = true;
  metadata = [];
  error = none;
}

-- The application's workspace: where the snapshot of a build goes, and what taking it gives. An
-- `adapter_error` stands for a `WorkspaceError`.
pub record Workspace : Type 0 where
  pub snapshot_path : String → String → String
  pub snapshot : String → String → Result (List BuildField)

abbrev pub namespace_text : Named (List ℕ) → Action String
namespace_text (named name) = pure (printable name)
namespace_text (naming_error message) = raise (Error.value_error message)

abbrev pub or_current : BuildJob → Option BuildJob → BuildJob
or_current build none = build
or_current build (some updated) = updated

-- What the service is given: GitLab, if the route checks are there; the workspace, if there is
-- one; the JSON form of a role; the digests of hashlib; Python's `str`; and what the other workers
-- do inside `fail`.
pub record Surroundings : Type 0 where
  pub route_checks : Option (Option ResolveRef)
  pub workspace : Option Workspace
  pub dump_role : AgentRole → Value
  pub hexdigest : List ℕ → List ℕ
  pub resource_key : String → String → String → String
  pub text_of : Value → String
  pub others : Repository → Repository

module _ (given_by : Surroundings) where
  unfoldable pub new_build :
      String
      → UserAppRecord
      → Option String
      → String
      → RouteCheckResult
      → AgentRole
      → Action BuildJob
  new_build appid app git_ref commit checked dynamic_role = do
    build_id ← uuid4
    created_at ← utc_now
    updated_at ← utc_now
    pure (record {
      build_id = build_id;
      appid = appid;
      git_ref = ref_or git_ref app.git_ref;
      inputs_ready = false;
      git_commit_sha = some commit;
      compose_snapshot = app.compose;
      workspace_snapshot = none;
      workspace_file_count = 0;
      workspace_archive_sha256 = none;
      status = BuildStatus.queued;
      celery_task_id = none;
      jenkins_queue_url = none;
      jenkins_build_number = none;
      images = [];
      service_ids = [];
      route_check_id = some checked.check_id;
      route_check_generation = some checked.generation;
      require_route_snapshot = some checked.require_route;
      static_agent_role_version = some checked.static_agent_role_version;
      dynamic_agent_role_version = some dynamic_role.agent_role_version;
      route_probe_payload = checked.probe_payload;
      route_dynamic_role_snapshot = some (given_by.dump_role dynamic_role);
      static_check_passed = some true;
      dynamic_check_passed = none;
      dynamic_status = DynamicStatus.pending;
      dynamic_run_id = none;
      dynamic_initial_started = false;
      dynamic_debug_started = false;
      dynamic_retry_started = false;
      dynamic_retry_payload = none;
      dynamic_dispatch_error = none;
      teardown_required = false;
      teardown_status = none;
      dynamic_report_text = none;
      probe_result = none;
      error = none;
      error_detail = none;
      raw_log_excerpt = none;
      failure_logs = none;
      failure_site = none;
      stage = some "queued";
      stage_history = "queued" ∷ [];
      started_at = none;
      finished_at = none;
      last_polled_at = none;
      created_at = created_at;
      updated_at = updated_at;
    })

  unfoldable pub new_resources : String → UserAppRecord → String → Action BuildResources
  new_resources appid app build_id = do
    namespace ← namespace_text (build_namespace given_by.hexdigest (codes appid) (codes build_id))
    updated_at ← utc_now
    pure (record {
      build_id = build_id;
      appid = appid;
      ownership_version = 1;
      namespace = some namespace;
      repository_url = some app.repository_url;
      environment_ciphertext = some app.environment_ciphertext;
      jenkins_trigger_pending = false;
      resources = [];
      cleanup_status = CleanupStatus.not_started;
      cleanup_generation = 0;
      lease_owner = none;
      lease_expires_at = none;
      cleanup_requested_at = none;
      started_at = none;
      finished_at = none;
      last_error = none;
      registry_storage_status = "not_applicable";
      updated_at = updated_at;
    })

-- ===== src/Services/Queue/Prepare.antt =====
-- `queue_build`: the inputs of a build, and its message.
use docker_jenkins_orchestra.Prelude.{
  String, true, Option, none, some, List, [], ◌∷◌, if◌then◌else◌, nat_eq, string_eq, option_eq,
  pair_eq,
}
use docker_jenkins_orchestra.Models.Value.{Value}
use docker_jenkins_orchestra.Models.App.{UserAppRecord}
use docker_jenkins_orchestra.Models.Build.{BuildJob, EventLevel}
use docker_jenkins_orchestra.Models.Resources.{CleanupStatus, ResourceState}
use docker_jenkins_orchestra.Models.RouteCheck.{RouteCheckResult}
use docker_jenkins_orchestra.Repository.Builds
use docker_jenkins_orchestra.Repository.Builds.{BuildField}
use docker_jenkins_orchestra.Repository.Resources.{ensure_build_resources}
use docker_jenkins_orchestra.RouteChecks.{get_role, given, dynamic_role_key, build_gate_error}
use docker_jenkins_orchestra.RouteChecks.Commit.{ResolveRef}
use docker_jenkins_orchestra.Services.Build.{record_event}
use docker_jenkins_orchestra.Services.Failure.{fail}
use docker_jenkins_orchestra.Services.Queue.{
  get_record, has_services, input_error, admit, precheck_failure, workspace_report, Workspace,
  or_current, Surroundings, new_build, new_resources,
}
use docker_jenkins_orchestra.Tracker.{ResourceTracker, record_resource, guard}
use docker_jenkins_orchestra.Cleanup.{with_build_lease}
use docker_jenkins_orchestra.World.{
  Action, Error, Task, pure, raise, lift, get_repository, put_repository, utc_now, dispatch,
  attempt, ◌>>=◌, ◌>>◌,
}

-- `self.repository.update_build(...)`
unfoldable pub write_build : String → List BuildField → Action (Option BuildJob)
write_build build_id fields = do
  r ← get_repository
  let (r', updated) = Builds.update_build build_id fields r
  put_repository r'
  pure updated

module _ (given_by : Surroundings) where
  -- `self.fail(...)`, and the error of the caller
  abbrev pub fail_and_raise {ℓ} : {A : Type ℓ} → String → String → Action A
  fail_and_raise build_id message = do
    _ ← fail given_by.text_of given_by.others build_id message (precheck_failure build_id message)
    raise (Error.build_input message)

  -- `except WorkspaceError as exc`
  abbrev pub snapshot_failed : ResourceTracker → String → Error → Action (List BuildField)
  snapshot_failed tracker build_id (Error.adapter_error message) = do
    guard tracker
    fail_and_raise build_id message
  snapshot_failed tracker build_id e = raise e

  abbrev pub take_snapshot :
      ResourceTracker → String → String → Option Workspace → Action (Unit {0})
  take_snapshot tracker appid build_id none = pure tt
  take_snapshot tracker appid build_id (some workspace) = do
    let path = workspace.snapshot_path appid build_id
    _ ← record_resource given_by.resource_key tracker (workspace_report path ResourceState.planned)
    fields ← attempt (lift (workspace.snapshot appid build_id)) (snapshot_failed tracker build_id)
    guard tracker
    _ ← write_build build_id fields
    _ ← record_resource given_by.resource_key tracker (workspace_report path ResourceState.present)
    pure tt

  abbrev pub ready_or_raise : BuildJob → Action BuildJob
  ready_or_raise build =
      if build.inputs_ready
      then pure build
      else raise (Error.build_input "Unable to persist the completed build input snapshot")

  -- the body under the lease
  unfoldable pub prepare_inputs : BuildJob → Option ResourceTracker → Action BuildJob
  prepare_inputs build none =
      raise
        (Error.build_input "Build input snapshot preparation is already owned by another operation")
  prepare_inputs build (some tracker) = do
    take_snapshot tracker build.appid build.build_id given_by.workspace
    guard tracker
    now ← utc_now
    updated ←
        write_build build.build_id (BuildField.inputs_ready true ∷ BuildField.updated_at now ∷ [])
    ready_or_raise (or_current build updated)

  abbrev pub updated_or_missing : Option BuildJob → Action BuildJob
  updated_or_missing none = raise (Error.not_found "Build not found after queueing")
  updated_or_missing (some build) = pure build

  abbrev pub dispatched_build : BuildJob → Option String → Action BuildJob
  dispatched_build build none = fail_and_raise build.build_id "Unable to enqueue build task"
  dispatched_build build (some task_id) = do
    now ← utc_now
    updated ←
        write_build build.build_id
          (BuildField.celery_task_id task_id ∷ BuildField.updated_at now ∷ [])
    queued ← updated_or_missing updated
    record_event build.appid (some build.build_id) "build.dispatched" "Build task dispatched"
        EventLevel.info (("task_id", Value.str task_id) ∷ [])
    pure queued

  -- what follows once the gate has let a check through
  unfoldable pub start_build :
      String → Option String → UserAppRecord → String × RouteCheckResult → Action BuildJob
  start_build appid git_ref app (commit, checked) = do
    dynamic_role ← get_role dynamic_role_key
    created ← new_build given_by appid app git_ref commit checked dynamic_role
    r ← get_repository
    put_repository (Builds.create_build created r)
    resources ← new_resources given_by appid app created.build_id
    _ ← ensure_build_resources resources
    build ←
        with_build_lease created.build_id (CleanupStatus.not_started ∷ []) (prepare_inputs created)
    record_event appid (some build.build_id) "build.queued" "Build queued" EventLevel.info []
    sent ← dispatch (Task.start_build build.build_id)
    dispatched_build build sent

  abbrev pub admitted :
      String
      → Option String
      → UserAppRecord
      → Option (Option ResolveRef)
      → Option String
      → Action BuildJob
  admitted appid git_ref app none route = raise (Error.build_input build_gate_error)
  admitted appid git_ref app (some gitlab) none = raise (Error.build_input build_gate_error)
  admitted appid git_ref app (some gitlab) (some route) = do
    admission ← attempt (admit gitlab app git_ref) input_error
    start_build appid git_ref app admission

  unfoldable pub queue_build : String → Option String → Action BuildJob
  queue_build appid git_ref = do
    app ← get_record appid
    if has_services app.compose
        then admitted appid git_ref app given_by.route_checks (given app.require_route)
        else raise (
            Error.build_input
              "A user-provided Docker Compose document with services is required before creating a build")

-- ===== src/Examples.antt =====
-- Concrete inputs, and the theorems applied to them.
mod Composed
mod Durations
mod Gates
mod Cleanups
mod Cleaning
mod Queues
mod Builds
mod Leases
mod Names
mod Orders
mod Ports
mod Teardowns
mod Trackers
mod Roles
mod Checks
mod Contracts
mod Published
use docker_jenkins_orchestra.Prelude.{
  ℕ, zero, suc, ◌+◌, ◌-◌, ◌*◌, ◌/◌, ◌%◌, ◌^◌, ◌≤◌, ◌<◌, String, ◌≡◌, refl, sym, ap, ◌∙◌, ◌≢◌, ◌↔◌,
  ◌⊎◌, inl, inr, Bool, true, false, not, ◌&&◌, ◌||◌, Option, none, some, List, [], ◌∷◌, ◌++◌, map,
  arith, eq_iff, ltb, leb, nat_beq, if◌then◌else◌, nat_beq_iff, leb_iff, ltb_iff, Eq, ◌==◌, nat_eq,
  string_eq, concat, Bool-cases, Option-cases, is_some, ==-refl, option_eq, pair_eq, length, take,
  drop, all, any, length-append, length-take, length-drop, All, All-append,
}
use docker_jenkins_orchestra.Models.Build.{BuildStatus, BuildJob, DynamicStatus}
use docker_jenkins_orchestra.Models.Resources.{CleanupStatus, BuildResources}
use docker_jenkins_orchestra.Repository.State.{Repository, empty_repository}
use docker_jenkins_orchestra.World.{World}

abbrev pub a_build : String → BuildStatus → BuildJob
a_build id at = record {
  build_id = id;
  appid = "shop";
  git_ref = "main";
  inputs_ready = true;
  git_commit_sha = none;
  compose_snapshot = none;
  workspace_snapshot = none;
  workspace_file_count = 0;
  workspace_archive_sha256 = none;
  status = at;
  celery_task_id = none;
  jenkins_queue_url = none;
  jenkins_build_number = none;
  images = [];
  service_ids = [];
  route_check_id = none;
  route_check_generation = none;
  require_route_snapshot = none;
  static_agent_role_version = none;
  dynamic_agent_role_version = none;
  route_probe_payload = none;
  route_dynamic_role_snapshot = none;
  static_check_passed = none;
  dynamic_check_passed = none;
  dynamic_status = DynamicStatus.pending;
  dynamic_run_id = none;
  dynamic_initial_started = false;
  dynamic_debug_started = false;
  dynamic_retry_started = false;
  dynamic_retry_payload = none;
  dynamic_dispatch_error = none;
  teardown_required = false;
  teardown_status = none;
  dynamic_report_text = none;
  probe_result = none;
  error = none;
  error_detail = none;
  raw_log_excerpt = none;
  failure_logs = none;
  failure_site = none;
  stage = none;
  stage_history = [];
  started_at = none;
  finished_at = none;
  last_polled_at = none;
  created_at = 0;
  updated_at = 0;
}

abbrev pub a_manifest : String → Option String → Option ℕ → BuildResources
a_manifest id owner until = record {
  build_id = id;
  appid = "shop";
  ownership_version = 1;
  namespace = none;
  repository_url = none;
  environment_ciphertext = none;
  jenkins_trigger_pending = false;
  resources = [];
  cleanup_status = CleanupStatus.running;
  cleanup_generation = 1;
  lease_owner = owner;
  lease_expires_at = until;
  cleanup_requested_at = none;
  started_at = none;
  finished_at = none;
  last_error = none;
  registry_storage_status = "not_applicable";
  updated_at = 0;
}

-- The clock reads 1000, 1010, 1020 and so on.
abbrev pub a_world : Repository → World
a_world r = record {
  repository = r;
  clock = λ n. 1000 + n * 10;
  ticks = 0;
  uuids = λ n. if n == 0 then "uuid-0" else "uuid-1";
  drawn = 0;
  broker = λ n. some "task";
  sent = 0;
  dispatched = [];
}

abbrev pub two_builds : Repository
two_builds = record empty_repository {
  builds =
      ("b1", a_build "b1" BuildStatus.queued) ∷ ("b2", a_build "b2" BuildStatus.succeeded) ∷ [];
}

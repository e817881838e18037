-- ===== src/RouteChecks/Gate.antt =====
-- `require_static_pass`, `verify_build_gate` and `delete_latest` of orchestrator/route_checks.py.
pub mod Sound
use docker_jenkins_orchestra.Prelude.{
  ℕ, zero, suc, ◌+◌, ◌-◌, ◌*◌, ◌/◌, ◌%◌, ◌^◌, ◌≤◌, ◌<◌, String, ◌≡◌, refl, sym, ap, ◌∙◌, ◌≢◌, ◌↔◌,
  ◌⊎◌, inl, inr, Bool, true, false, not, ◌&&◌, ◌||◌, Option, none, some, List, [], ◌∷◌, ◌++◌, map,
  arith, eq_iff, ltb, leb, nat_beq, if◌then◌else◌, nat_beq_iff, leb_iff, ltb_iff, Eq, ◌==◌, nat_eq,
  string_eq, concat, Bool-cases, Option-cases, is_some, ==-refl, option_eq, pair_eq, length, take,
  drop, all, any, length-append, length-take, length-drop, All, All-append,
}
use docker_jenkins_orchestra.Prelude.Dict.{Dict, lookup}
use docker_jenkins_orchestra.Models.App.{UserAppRecord, AgentRole}
use docker_jenkins_orchestra.Models.Build.{BuildJob}
use docker_jenkins_orchestra.Models.RouteCheck.{RouteCheckResult, StaticStatus, static_status_eq}
use docker_jenkins_orchestra.Repository.RouteChecks.{
  RouteKey, route_key, first_match, find_route_check, delete_route_check,
}
use docker_jenkins_orchestra.RouteChecks.{
  get_agent_role, get_role, or_no_role, given, static_role_key, build_gate_error,
}
use docker_jenkins_orchestra.World.{
  Action, World, Result, ok, Error, pure, raise, get_repository, ◌>>=◌, get_repository-bind, >>=-ok,
  raise-ok,
}

abbrev pub gate_closed : Action RouteCheckResult
gate_closed = raise (Error.route_check_input build_gate_error)

-- `generation is not None and result.generation != generation`
abbrev pub is_generation : Option ℕ → ℕ → Bool
is_generation none generation = true
is_generation (some wanted) generation = generation == wanted

-- `value is True`
abbrev pub is_pass : Option Bool → Bool
is_pass (some true) = true
is_pass _ = false

abbrev pub has_passed : RouteCheckResult → Bool
has_passed check =
    is_pass check.static_check_passed && check.static_status == StaticStatus.succeeded

abbrev pub passed_or_closed : Option ℕ → Option RouteCheckResult → Action RouteCheckResult
passed_or_closed generation none = gate_closed
passed_or_closed generation (some check) =
    if has_passed check && is_generation generation check.generation
    then pure check
    else gate_closed

abbrev pub require_for_route :
    UserAppRecord → String → Option ℕ → Option String → Action RouteCheckResult
require_for_route app commit_id generation none = gate_closed
require_for_route app commit_id generation (some route) = do
  role ← get_role static_role_key
  r ← get_repository
  passed_or_closed generation
      (find_route_check (app.appid, (commit_id, (route, role.agent_role_version))) r)

unfoldable pub require_static_pass : UserAppRecord → String → Option ℕ → Action RouteCheckResult
require_static_pass app commit_id generation =
    require_for_route app commit_id generation (given app.require_route)

-- whether the build carries what the gate needs: a generation, and the route and the pass
abbrev pub is_admissible : BuildJob → UserAppRecord → Bool
is_admissible build app =
    build.appid == app.appid
    && is_some build.route_check_generation
    && build.require_route_snapshot == app.require_route
    && is_pass build.static_check_passed

abbrev pub is_same_check : BuildJob → RouteCheckResult → Bool
is_same_check build check =
    build.route_check_id == some check.check_id
    && build.static_agent_role_version == some check.static_agent_role_version

abbrev pub verify_commit : BuildJob → UserAppRecord → Option String → Action RouteCheckResult
verify_commit build app none = gate_closed
verify_commit build app (some commit) = do
  check ← require_static_pass app commit build.route_check_generation
  if is_same_check build check then pure check else gate_closed

unfoldable pub verify_build_gate : BuildJob → UserAppRecord → Action RouteCheckResult
verify_build_gate build app =
    if is_admissible build app
    then verify_commit build app (given build.git_commit_sha)
    else gate_closed

abbrev pub delete_for_route : String → String → Option String → Action Bool
delete_for_route app_id commit_id none = pure false
delete_for_route app_id commit_id (some route) = do
  role ← get_role static_role_key
  delete_route_check (app_id, (commit_id, (route, role.agent_role_version)))

abbrev pub delete_of_app : String → String → Option UserAppRecord → Action Bool
delete_of_app app_id commit_id none = raise (Error.key_error "App not found")
delete_of_app app_id commit_id (some app) =
    delete_for_route app_id commit_id (given app.require_route)

unfoldable pub delete_latest : String → String → Action Bool
delete_latest app_id commit_id = do
  r ← get_repository
  delete_of_app app_id commit_id (lookup app_id r.apps)

-- ===== src/RouteChecks.antt =====
-- `RouteCheckService` of orchestrator/route_checks.py: the static checks of an application's route,
-- and the gate that a build has to pass.
pub mod Commit
pub mod Submit
pub mod Gate
pub mod Lease
pub mod Outcome
pub mod Execute
use docker_jenkins_orchestra.Prelude.{
  ℕ, zero, suc, ◌+◌, ◌-◌, ◌*◌, ◌/◌, ◌%◌, ◌^◌, ◌≤◌, ◌<◌, String, ◌≡◌, refl, sym, ap, ◌∙◌, ◌≢◌, ◌↔◌,
  ◌⊎◌, inl, inr, Bool, true, false, not, ◌&&◌, ◌||◌, Option, none, some, List, [], ◌∷◌, ◌++◌, map,
  arith, eq_iff, ltb, leb, nat_beq, if◌then◌else◌, nat_beq_iff, leb_iff, ltb_iff, Eq, ◌==◌, nat_eq,
  string_eq, concat, Bool-cases, Option-cases, is_some, ==-refl, option_eq, pair_eq, length, take,
  drop, all, any, length-append, length-take, length-drop, All, All-append,
}
use docker_jenkins_orchestra.Prelude.Dict.{lookup}
use docker_jenkins_orchestra.Models.App.{AgentRole}
use docker_jenkins_orchestra.Models.RouteCheck.{RouteCheckResult}
use docker_jenkins_orchestra.Repository.State.{Repository}
use docker_jenkins_orchestra.Repository.Roles.{get_agent_role}
use docker_jenkins_orchestra.World.{Action, Error, pure, raise, get_repository, ◌>>=◌, ◌>>◌}

abbrev pub static_role_key : String
static_role_key = "static_build_agent"

abbrev pub dynamic_role_key : String
dynamic_role_key = "dynamic_debug_agent"

abbrev pub build_gate_error : String
build_gate_error = "未进行路由静态检查, 无法交付构建任务"

abbrev pub or_no_role : Option AgentRole → Action AgentRole
or_no_role none = raise (Error.key_error "Agent role not found")
or_no_role (some role) = pure role

-- `AgentRoleService.get`
unfoldable pub get_role : String → Action AgentRole
get_role role_key = do r ← get_repository; or_no_role (get_agent_role role_key r)

abbrev pub or_no_check : Option RouteCheckResult → Action RouteCheckResult
or_no_check none = raise (Error.key_error "Route check not found")
or_no_check (some check) = pure check

-- `_check`
unfoldable pub stored_check : String → Action RouteCheckResult
stored_check check_id = do r ← get_repository; or_no_check (lookup check_id r.route_checks)

-- a text that is there and not empty
abbrev pub given : Option String → Option String
given none = none
given (some s) = if s == "" then none else some s

-- `result or self._check(check_id)`
abbrev pub or_stored : String → Option RouteCheckResult → Action RouteCheckResult
or_stored check_id none = stored_check check_id
or_stored check_id (some check) = pure check

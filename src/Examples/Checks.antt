-- ===== src/Examples/Checks.antt =====
-- Calls on the route checks of an empty repository.
use docker_jenkins_orchestra.Prelude.{
  ℕ, String, none, List, [], ◌∷◌, nat_eq, string_eq, option_eq, pair_eq,
}
use docker_jenkins_orchestra.Models.Value.{null}
use docker_jenkins_orchestra.Models.RouteCheck.{RouteCheckResult, StaticStatus, CheckDynamicStatus}
use docker_jenkins_orchestra.Repository.State.{empty_repository}
use docker_jenkins_orchestra.Repository.RouteChecks.{CheckField, generation_is, route_key}
use docker_jenkins_orchestra.Repository.RouteChecks.Unique.{Apart}
use docker_jenkins_orchestra.Repository.RouteChecks.Sequences.{
  CheckCall, perform_all, perform_all-Apart,
}
use docker_jenkins_orchestra.World.{World}
use docker_jenkins_orchestra.Examples.{a_world}

abbrev pub a_check : String → ℕ → RouteCheckResult
a_check name number = record {
  id = number;
  check_id = name;
  app_id = "shop";
  commit_id = "c0ffee";
  require_route = "/";
  static_agent_role_version = 1;
  dynamic_agent_role_version = 1;
  generation = 1;
  repository_url = "";
  git_ref = "main";
  static_role_snapshot = null;
  dynamic_role_snapshot = null;
  static_task_id = none;
  static_run_token = none;
  static_lease_expires_at = none;
  dispatch_error = none;
  dynamic_build_id = none;
  dynamic_run_id = none;
  static_status = StaticStatus.queued;
  dynamic_status = CheckDynamicStatus.pending;
  diff_list = [];
  probe_payload = none;
  static_report_text = none;
  static_check_passed = none;
  probe_result = none;
  dynamic_report_text = none;
  dynamic_check_passed = none;
  created_at = 0;
  updated_at = 0;
}

abbrev w : World
w = a_world empty_repository

-- a second check of the same commit, an update, and a deletion
abbrev calls : List CheckCall
calls =
    CheckCall.ensure (a_check "k1" 7)
    ∷ CheckCall.ensure (a_check "k2" 8)
    ∷ CheckCall.update "k1" (CheckField.generation 2 ∷ []) (generation_is 1 ∷ [])
    ∷ CheckCall.save (a_check "k1" 9)
    ∷ CheckCall.delete (route_key (a_check "k1" 7))
    ∷ []

nothing : Apart w.repository.route_checks
nothing = record {
  own = λ k c h. absurd h;
  one_key = λ j k a b h l e. absurd h;
  one_id = λ j k a b h l e. absurd h;
}

perform_all-Apart_example : Apart (perform_all calls w).repository.route_checks
perform_all-Apart_example = perform_all-Apart calls w nothing

-- ===== src/Examples/Gates.antt =====
-- Static checks that pass, are superseded, and let a build through.
use docker_jenkins_orchestra.Prelude.{
  String, ◌≡◌, refl, ◌⊎◌, inl, true, false, none, some, [], ◌∷◌, arith, nat_eq, string_eq,
  option_eq, pair_eq,
}
use docker_jenkins_orchestra.Prelude.Dict.{lookup, insert, lookup-insert}
use docker_jenkins_orchestra.Models.Value.{
  Value, null, bool, str, sequence, mapping, entry, end, nil,
}
use docker_jenkins_orchestra.Models.App.{UserAppRecord}
use docker_jenkins_orchestra.Models.Build.{BuildJob, BuildStatus}
use docker_jenkins_orchestra.Models.RouteCheck.{RouteCheckResult, StaticStatus}
use docker_jenkins_orchestra.Repository.State.{Repository, empty_repository}
use docker_jenkins_orchestra.Repository.Roles.{get_agent_role}
use docker_jenkins_orchestra.Repository.RouteChecks.{update_check_fields, find_route_check}
use docker_jenkins_orchestra.RouteChecks.{get_role}
use docker_jenkins_orchestra.RouteChecks.Gate.{verify_build_gate, require_static_pass}
use docker_jenkins_orchestra.RouteChecks.Gate.Sound.{Passed, verify_build_gate_sound}
use docker_jenkins_orchestra.RouteChecks.Outcome.{static_outcome, read_output, passed_fields}
use docker_jenkins_orchestra.RouteChecks.Outcome.Sound.{HasPassed, HasFailed, static_outcome_sound}
use docker_jenkins_orchestra.RouteChecks.Execute.{StaticRun, run_static}
use docker_jenkins_orchestra.RouteChecks.Execute.Newer.{run_static_keeps_newer}
use docker_jenkins_orchestra.World.{World, Result, ok, ◌>>=◌}
use docker_jenkins_orchestra.Examples.{a_build, a_world}
use docker_jenkins_orchestra.Examples.Checks.{a_check}
use docker_jenkins_orchestra.Examples.Roles.{a_role}

abbrev pub an_app : UserAppRecord
an_app = record {
  appid = "shop";
  name = "Shop";
  repository_url = "https://git/shop";
  git_ref = "main";
  environment_ciphertext = "";
  environment_keys = [];
  compose = some (
      mapping (
        entry "services" (mapping (entry "api" (mapping (entry "image" (str "api:1") end)) end))
          end));
  compose_source_file = none;
  compose_source_commit = none;
  components = [];
  require_route = some "/";
  created_at = 0;
  updated_at = 0;
}

-- a check of a commit that has passed
abbrev pub passed_check : String → RouteCheckResult
passed_check commit = record (a_check "k1" 7) {
  commit_id = commit;
  static_status = StaticStatus.succeeded;
  static_check_passed = some true;
}

abbrev pub checked_repository : String → Repository
checked_repository commit = record empty_repository {
  apps = ("shop", an_app) ∷ [];
  agent_roles =
      ("static_build_agent", a_role "static" 1) ∷ ("dynamic_debug_agent", a_role "dynamic" 1) ∷ [];
  route_checks = ("k1", passed_check commit) ∷ [];
}

abbrev w : World
w = a_world (checked_repository "c0ffee")

abbrev gated_build : BuildJob
gated_build = record (a_build "b1" BuildStatus.validating) {
  git_commit_sha = some "c0ffee";
  route_check_id = some "k1";
  route_check_generation = some 1;
  require_route_snapshot = some "/";
  static_agent_role_version = some 1;
  static_check_passed = some true;
}

let_through : (verify_build_gate gated_build an_app w).0 ≡ ok (passed_check "c0ffee")
unfolding verify_build_gate require_static_pass get_role get_agent_role find_route_check lookup
    ◌>>=◌
let_through = refl

verify_build_gate_sound_example : Passed gated_build an_app (passed_check "c0ffee") w
verify_build_gate_sound_example =
    verify_build_gate_sound gated_build an_app (passed_check "c0ffee") w let_through

-- every payload is valid
abbrev validate : Value → String → Result Value
validate payload route = ok payload

abbrev output : Value
output = mapping (
    entry "route_found" (bool true) (
      entry "probe_payload" null (
        entry "patch_available" (bool false)
          (entry "diff_list" (sequence nil) (entry "report_text" (str "fine") end)))))

judged_output : static_outcome validate "/" output "" false ≡ ok (passed_fields null)
unfolding static_outcome read_output lookup
judged_output = refl

static_outcome_sound_example :
    HasPassed validate "/" output "" false
      (update_check_fields (passed_fields null) (a_check "k1" 7))
    ⊎ HasFailed (update_check_fields (passed_fields null) (a_check "k1" 7))
static_outcome_sound_example =
    static_outcome_sound validate "/" output "" false (passed_fields null) (a_check "k1" 7)
      judged_output

abbrev owned : RouteCheckResult
owned = record (a_check "k1" 7) {
  static_status = StaticStatus.running;
  static_run_token = some "token";
}

-- a forced run has started a new generation
abbrev newer : RouteCheckResult
newer = record (a_check "k1" 7) { generation = 2 }

abbrev forced : Repository → Repository
forced r = record r { route_checks = insert "k1" newer r.route_checks }

abbrev run : StaticRun
run = record {
  role_version = ok 1;
  resolved = ok "c0ffee";
  head = ok "c0ffee";
  output = ok output;
  actual_diff = ok "";
  head_after = ok "c0ffee";
  lost_before = false;
  lost_after = false;
  others_before = λ r. r;
  others_during = λ r. r;
  others_after = forced;
}

newer_stored : (r : Repository) → lookup "k1" (forced r).route_checks ≡ some newer
newer_stored r = rw lookup-insert refl

run_static_keeps_newer_example :
    let after = run_static validate 60 run "k1" (some owned) w in
    (after.0 ≡ ok "superseded") × (lookup "k1" after.1.repository.route_checks ≡ some newer)
run_static_keeps_newer_example =
    run_static_keeps_newer validate 60 run "k1" owned newer w newer_stored (inl (omega arith))

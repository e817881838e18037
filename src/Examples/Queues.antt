-- ===== src/Examples/Queues.antt =====
-- A build that is queued.
use docker_jenkins_orchestra.Prelude.{
  String, ◌≡◌, refl, Bool, true, false, none, some, nat_eq, string_eq, option_eq, pair_eq,
}
use docker_jenkins_orchestra.Prelude.Dict.{lookup, insert}
use docker_jenkins_orchestra.Text.Regex.{fullmatch}
use docker_jenkins_orchestra.Naming.{build_namespace, validate_appid, validate_build_id}
use docker_jenkins_orchestra.Models.Value.{null}
use docker_jenkins_orchestra.Models.Build.{BuildJob}
use docker_jenkins_orchestra.Repository.Builds.{
  create_build, update_build, append_event, update_build_fields,
}
use docker_jenkins_orchestra.Repository.Resources.{
  ensure_build_resources, claim_build_lease, release_build_lease,
}
use docker_jenkins_orchestra.Repository.Roles.{get_agent_role}
use docker_jenkins_orchestra.Repository.RouteChecks.{find_route_check}
use docker_jenkins_orchestra.RouteChecks.{get_role}
use docker_jenkins_orchestra.RouteChecks.Commit.{resolve_commit, is_sha}
use docker_jenkins_orchestra.RouteChecks.Gate.{require_static_pass}
use docker_jenkins_orchestra.Services.Build.{record_event}
use docker_jenkins_orchestra.Tracker.{guard}
use docker_jenkins_orchestra.Cleanup.{with_build_lease, finally}
use docker_jenkins_orchestra.Services.Queue.{
  get_record, admit, new_build, new_resources, Surroundings,
}
use docker_jenkins_orchestra.Services.Queue.Prepare.{
  write_build, prepare_inputs, start_build, queue_build,
}
use docker_jenkins_orchestra.Services.Queue.Gated.{Admission, queue_build_gated}
use docker_jenkins_orchestra.World.{World, Result, ok, err, attempt, ◌>>=◌}
use docker_jenkins_orchestra.Examples.{a_world}
use docker_jenkins_orchestra.Examples.Gates.{checked_repository}

abbrev sha : String
sha = "c0ffeec0ffeec0ffeec0ffeec0ffeec0ffeec0ff"

abbrev surroundings : Surroundings
surroundings = record {
  route_checks = some (some (λ url ref. ok sha));
  workspace = none;
  dump_role = λ role. null;
  hexdigest = λ text. text;
  resource_key = λ kind target name. name;
  text_of = λ v. "";
  others = λ r. r;
}

abbrev w : World
w = record (a_world (checked_repository sha)) { uuids = λ n. "0123456789abcdef0123456789abcdef" }

-- whether a build came out
abbrev has_value : Result BuildJob → Bool
has_value (ok build) = true
has_value (err e) = false

queued : has_value (queue_build surroundings "shop" none w).0 ≡ true
unfolding queue_build get_record admit resolve_commit is_sha require_static_pass get_role
    get_agent_role find_route_check start_build new_build new_resources build_namespace
    validate_appid validate_build_id fullmatch create_build ensure_build_resources with_build_lease
    claim_build_lease release_build_lease finally prepare_inputs guard write_build update_build
    update_build_fields record_event append_event attempt lookup insert ◌>>=◌
queued = refl

value_of : (r : Result BuildJob) → has_value r ≡ true → (build : BuildJob) × (r ≡ ok build)
value_of (ok build) h = (build, refl)
value_of (err e) h = cc h

outcome : (build : BuildJob) × ((queue_build surroundings "shop" none w).0 ≡ ok build)
outcome = value_of (queue_build surroundings "shop" none w).0 queued

queue_build_gated_example : Admission surroundings "shop" none w
queue_build_gated_example = queue_build_gated surroundings "shop" none outcome.0 w outcome.1

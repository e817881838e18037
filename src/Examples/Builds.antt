-- ===== src/Examples/Builds.antt =====
-- Runs of the build service on two builds.
use docker_jenkins_orchestra.Prelude.{
  ◌≤◌, String, ◌≡◌, refl, true, none, some, [], if◌then◌else◌, ◌==◌, nat_eq, string_eq, option_eq,
  pair_eq, length,
}
use docker_jenkins_orchestra.Models.Build.{is_terminal, BuildStatus}
use docker_jenkins_orchestra.Prelude.Dict.{insert, lookup}
use docker_jenkins_orchestra.Repository.Builds
use docker_jenkins_orchestra.Models.Value.{Value}
use docker_jenkins_orchestra.Repository.State.{Repository}
use docker_jenkins_orchestra.Services.Build.{
  transition_from, get_build, ends_with, stage_after, transition,
}
use docker_jenkins_orchestra.Services.Failure.{failure_fields, FailureReport, fail}
use docker_jenkins_orchestra.Services.Build.Lifecycle.{transition-Evolves, Evolves, Evolves-refl}
use docker_jenkins_orchestra.Services.Build.Outcome.{
  after_transition, transition_error_unchanged, transition_moves,
}
use docker_jenkins_orchestra.Services.Failure.Outcome.{alert_of, fail_closes}
use docker_jenkins_orchestra.World.{◌>>=◌, Error, World, err, ok}
use docker_jenkins_orchestra.Examples.{a_build, a_world, two_builds}

abbrev w : World
w = a_world two_builds

abbrev report : FailureReport
report = record {
  error_detail = none;
  raw_log_excerpt = some "log";
  failure_logs = none;
  failure_site = some "jenkins";
}

-- the other workers do nothing
quiet : (r : Repository) → Evolves r r
quiet r = Evolves-refl refl

found : lookup "b1" w.repository.builds ≡ some (a_build "b1" BuildStatus.queued)
unfolding lookup
found = refl

-- the others cancel the first build
abbrev cancelling : Repository → Repository
cancelling r = (transition (λ x. x) "b1" BuildStatus.cancelled [] (a_world r)).1.repository

cancelling-Evolves : (r : Repository) → Evolves r (cancelling r)
cancelling-Evolves r = transition-Evolves quiet "b1" BuildStatus.cancelled [] (a_world r)

refused :
    (transition (λ r. r) "b2" BuildStatus.queued [] w).0
    ≡ err (Error.invalid_transition "Cannot transition build from succeeded to queued")
unfolding transition transition_from get_build ◌>>=◌ Builds.get_build lookup
refused = refl

transition-Evolves_example :
    Evolves w.repository (transition cancelling "b1" BuildStatus.validating [] w).1.repository
transition-Evolves_example = transition-Evolves cancelling-Evolves "b1" BuildStatus.validating [] w

transition_error_unchanged_example : (transition (λ r. r) "b2" BuildStatus.queued [] w).1 ≡ w
transition_error_unchanged_example = transition_error_unchanged "b2" BuildStatus.queued [] w refused

transition_moves_example :
    let after = transition (λ r. r) "b1" BuildStatus.validating [] w in
    let built =
      after_transition "b1" BuildStatus.validating [] w (a_build "b1" BuildStatus.queued) in
    (after.0 ≡ ok built)
    × ((j : String)
        → lookup j after.1.repository.builds
          ≡ (if "b1" == j then some built else lookup j w.repository.builds))
    × (built.status ≡ BuildStatus.validating)
    × (ends_with built.stage_history (stage_after BuildStatus.validating []) ≡ true)
    × (length built.stage_history ≤ 32)
    × (is_terminal BuildStatus.validating ≡ true → built.finished_at ≡ some (w.clock w.ticks))
transition_moves_example =
    transition_moves "b1" BuildStatus.validating [] w (a_build "b1" BuildStatus.queued) found refl
      refl

abbrev shown : Value → String
shown v = "value"

fail_closes_example :
    let after = fail shown (λ r. r) "b1" "broken" report w in
    let built =
      after_transition "b1" BuildStatus.failed
        (failure_fields shown "broken" report)
        w
        (a_build "b1" BuildStatus.queued) in
    (after.0 ≡ ok built)
    × (built.status ≡ BuildStatus.failed)
    × (built.error ≡ some "broken")
    × ((j : String)
        → lookup j after.1.repository.builds
          ≡ (if "b1" == j then some built else lookup j w.repository.builds))
    × (after.1.repository.alerts
        ≡ insert "uuid-1" (alert_of shown "b1" "broken" report w built) w.repository.alerts)
fail_closes_example =
    fail_closes shown "b1" "broken" report w (a_build "b1" BuildStatus.queued) found refl

-- the others cancel the first build, in one write
abbrev overtaking : Repository → Repository
overtaking r = record r { builds = insert "b1" (a_build "b1" BuildStatus.cancelled) r.builds }

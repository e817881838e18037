-- ===== src/Examples/Cleanups.antt =====
-- The lease around an operation, and a request to clean up a build that has ended.
use docker_jenkins_orchestra.Prelude.{
  ℕ, ◌≡◌, ◌≢◌, refl, sym, ◌∙◌, true, false, Option, none, some, [], ◌∷◌, ◌++◌, ◌==◌, nat_eq,
  string_eq, option_eq, pair_eq,
}
use docker_jenkins_orchestra.Prelude.Dict.{lookup, insert}
use docker_jenkins_orchestra.Models.Build.{BuildJob, BuildStatus, is_terminal}
use docker_jenkins_orchestra.Models.Resources.{BuildResources, CleanupStatus}
use docker_jenkins_orchestra.Repository.State.{Repository}
use docker_jenkins_orchestra.Repository.Resources.{
  claim_build_lease, release_build_lease, update_build_resources, update_manifest_fields,
}
use docker_jenkins_orchestra.Tracker.{ResourceTracker}
use docker_jenkins_orchestra.Cleanup.{
  Jenkins, has_text, finally, assert_quiescent, with_build_lease, manifest,
}
use docker_jenkins_orchestra.Cleanup.Request.{is_underway, is_cleaned, request_cleanup}
use docker_jenkins_orchestra.Cleanup.Released.{IsFree, with_build_lease_releases}
use docker_jenkins_orchestra.Cleanup.Ended.{HasEnded}
use docker_jenkins_orchestra.Cleanup.Gated.{request_cleanup_gated}
use docker_jenkins_orchestra.World.{Action, World, Result, ok, Error, Task, raise, ◌>>=◌}
use docker_jenkins_orchestra.Examples.{a_build, a_manifest, a_world, two_builds}

abbrev w : World
w = a_world (record two_builds { build_resources = ("b1", a_manifest "b1" none none) ∷ [] })

-- an operation that raises
abbrev failing : Option ResourceTracker → Action ℕ
failing tracker = raise (Error.resource_conflict "Resource identity changed")

abbrev drawn : World
drawn = record w { drawn = 1; ticks = 1 }

abbrev claim : Result (Option BuildResources) × World
claim = claim_build_lease "b1" "uuid-0" 1120 (CleanupStatus.running ∷ []) drawn

abbrev held : BuildResources
held = record (a_manifest "b1" (some "uuid-0") (some 1120)) { updated_at = 1010 }

granted : claim ≡ (ok (some held), claim.1)
unfolding claim_build_lease lookup insert ◌>>=◌
granted = refl

with_build_lease_releases_example :
    let after = with_build_lease "b1" (CleanupStatus.running ∷ []) failing w in
    (after.0 ≡ (failing none claim.1).0) × IsFree "b1" "uuid-0" after.1.repository
with_build_lease_releases_example =
    with_build_lease_releases "b1" (CleanupStatus.running ∷ []) failing w claim.1 held granted

abbrev idle : BuildResources
idle = record (a_manifest "b2" none none) {
  cleanup_status = CleanupStatus.not_started;
  jenkins_trigger_pending = true;
}

-- a build that has ended, as its build in Jenkins has
abbrev over : BuildJob
over = record (a_build "b2" BuildStatus.succeeded) {
  jenkins_queue_url = some "queue/3";
  jenkins_build_number = some 7;
}

abbrev jenkins : Jenkins
jenkins = record { is_build_terminal = λ n. ok (n == 7); queue_item = λ url. ok (some 7, false) }

abbrev v : World
v = a_world (record two_builds { builds = ("b2", over) ∷ []; build_resources = ("b2", idle) ∷ [] })

known : lookup "b2" v.repository.build_resources ≡ some idle
unfolding lookup
known = refl

abbrev legacy : BuildJob → Repository → BuildResources
legacy build r = a_manifest build.build_id none none

one_message :
    (request_cleanup (manifest legacy) (some jenkins) "b2" true v).1.dispatched
    ≡ Task.cleanup_build "b2" ∷ []
unfolding request_cleanup manifest assert_quiescent with_build_lease claim_build_lease
    release_build_lease update_build_resources update_manifest_fields finally lookup insert ◌>>=◌
one_message = refl

message_sent :
    (request_cleanup (manifest legacy) (some jenkins) "b2" true v).1.dispatched ≢ v.dispatched
message_sent e = let bad : Task.cleanup_build "b2" ∷ [] ≡ [] = sym one_message ∙ e in cc bad

request_cleanup_gated_example :
    let after = (request_cleanup (manifest legacy) (some jenkins) "b2" true v).1 in
    (build : BuildJob) × (lookup "b2" v.repository.builds ≡ some build)
    × (is_terminal build.status ≡ true)
    × (is_cleaned idle.cleanup_status ≡ false)
    × (is_underway idle.cleanup_status ≡ false)
    × (idle.jenkins_trigger_pending ≡ true → has_text build.jenkins_queue_url ≡ true)
    × HasEnded (some jenkins) build.jenkins_queue_url build.jenkins_build_number
    × (after.dispatched ≡ v.dispatched ++ Task.cleanup_build "b2" ∷ [])
request_cleanup_gated_example =
    request_cleanup_gated legacy (some jenkins) "b2" true v idle known message_sent

-- ===== src/Examples/Teardowns.antt =====
-- The teardown of a build whose dynamic check has failed.
use docker_jenkins_orchestra.Prelude.{
  String, ◌≡◌, ◌↔◌, refl, true, false, none, some, [], ◌∷◌, nat_eq, string_eq, option_eq, pair_eq,
}
use docker_jenkins_orchestra.Prelude.Dict.{lookup, insert}
use docker_jenkins_orchestra.Models.Build.{BuildJob, BuildStatus, DynamicStatus, TeardownStatus}
use docker_jenkins_orchestra.Models.Resources.{BuildResources, CleanupStatus}
use docker_jenkins_orchestra.Repository.State.{Repository}
use docker_jenkins_orchestra.Repository.Builds
use docker_jenkins_orchestra.Repository.Builds.{update_build_fields}
use docker_jenkins_orchestra.Repository.Resources.{
  ManifestField, claim_build_lease, release_build_lease, update_build_resources,
  update_manifest_fields,
}
use docker_jenkins_orchestra.Cleanup.{finally, assert_quiescent, with_build_lease, manifest}
use docker_jenkins_orchestra.Cleanup.Request.{request_cleanup}
use docker_jenkins_orchestra.Cleanup.Run.{observe}
use docker_jenkins_orchestra.Services.Build.{get_build}
use docker_jenkins_orchestra.Teardown.{
  clean_up, record_teardown, sync_from, sync_teardown, teardown, teardown_from, update_now,
}
use docker_jenkins_orchestra.Teardown.Settled.{teardown_settles}
use docker_jenkins_orchestra.World.{Action, World, ok, pure, ◌>>=◌}
use docker_jenkins_orchestra.Examples.{a_build, a_manifest, a_world, two_builds}

abbrev broken : BuildJob
broken = record (a_build "b2" BuildStatus.failed) {
  dynamic_status = DynamicStatus.failed;
  teardown_required = true;
  teardown_status = some TeardownStatus.pending;
}

abbrev idle : BuildResources
idle = record (a_manifest "b2" none none) { cleanup_status = CleanupStatus.not_started }

abbrev w : World
w =
    a_world
      (record two_builds { builds = ("b2", broken) ∷ []; build_resources = ("b2", idle) ∷ [] })

abbrev legacy : BuildJob → Repository → BuildResources
legacy build r = a_manifest build.build_id none none

-- a cleanup that finds nothing to remove
abbrev cleaning : String → Action (Unit {0})
cleaning build_id = do
  _ ← update_build_resources build_id (ManifestField.cleanup_status CleanupStatus.succeeded ∷ []) []
  pure tt

abbrev torn_down : BuildJob
torn_down = record broken {
  teardown_required = false;
  teardown_status = some TeardownStatus.succeeded;
  updated_at = 1070;
}

answered : (teardown legacy none cleaning "b2" w).0 ≡ ok (some TeardownStatus.succeeded)
unfolding teardown teardown_from clean_up observe sync_teardown sync_from record_teardown update_now
    get_build Builds.get_build Builds.update_build update_build_fields request_cleanup manifest
    assert_quiescent with_build_lease claim_build_lease release_build_lease update_build_resources
    update_manifest_fields finally lookup insert ◌>>=◌
answered = refl

stored : lookup "b2" (teardown legacy none cleaning "b2" w).1.repository.builds ≡ some torn_down
unfolding teardown teardown_from clean_up observe sync_teardown sync_from record_teardown update_now
    get_build Builds.get_build Builds.update_build update_build_fields request_cleanup manifest
    assert_quiescent with_build_lease claim_build_lease release_build_lease update_build_resources
    update_manifest_fields finally lookup insert ◌>>=◌
stored = refl

teardown_settles_example :
    (torn_down.teardown_status ≡ some TeardownStatus.succeeded)
    × (torn_down.teardown_required ≡ false ↔ TeardownStatus.succeeded ≡ TeardownStatus.succeeded)
    × (TeardownStatus.succeeded ≡ TeardownStatus.succeeded
        → (m : BuildResources) × (lookup "b2"
              (teardown legacy none cleaning "b2" w).1.repository.build_resources
            ≡ some m)
          × (m.cleanup_status ≡ CleanupStatus.succeeded))
teardown_settles_example =
    teardown_settles legacy none cleaning "b2" TeardownStatus.succeeded w torn_down answered stored

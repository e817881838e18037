-- ===== src/Teardown.antt =====
-- The teardown of a build whose dynamic check has failed: `sync_teardown` and `teardown` of
-- orchestrator/dynamic_checks.py.
pub mod Settled
use docker_jenkins_orchestra.Prelude.{
  String, Bool, true, false, not, ◌&&◌, Option, none, some, List, [], ◌∷◌, if◌then◌else◌, string_eq,
  is_some,
}
use docker_jenkins_orchestra.Prelude.Dict.{lookup}
use docker_jenkins_orchestra.Models.Build.{BuildJob, TeardownStatus}
use docker_jenkins_orchestra.Models.Resources.{BuildResources, CleanupStatus}
use docker_jenkins_orchestra.Repository.State.{Repository}
use docker_jenkins_orchestra.Repository.Builds
use docker_jenkins_orchestra.Repository.Builds.{BuildField}
use docker_jenkins_orchestra.Cleanup.{Jenkins, manifest}
use docker_jenkins_orchestra.Cleanup.Request.{request_cleanup}
use docker_jenkins_orchestra.Cleanup.Run.{observe}
use docker_jenkins_orchestra.Services.Build.{get_build}
use docker_jenkins_orchestra.World.{
  Action, Result, ok, err, pure, get_repository, put_repository, utc_now, ◌>>=◌, ◌>>◌,
}

-- the status of the teardown, by that of the cleanup; a build without a manifest has failed
abbrev pub teardown_status_of : Option BuildResources → TeardownStatus
teardown_status_of none = TeardownStatus.partial_failed
teardown_status_of (some m) = elim m.cleanup_status [
  | CleanupStatus.succeeded ↦ TeardownStatus.succeeded
  | CleanupStatus.partial_failed ↦ TeardownStatus.partial_failed
  | CleanupStatus.running ↦ TeardownStatus.running
  | _ ↦ TeardownStatus.pending
]

abbrev pub is_torn_down : TeardownStatus → Bool
is_torn_down TeardownStatus.succeeded = true
is_torn_down _ = false

-- `repository.update_build(build_id, {**fields, "updated_at": utc_now()})`
unfoldable pub update_now : String → List BuildField → Action (Option BuildJob)
update_now build_id fields = do
  now ← utc_now
  r ← get_repository
  let (r', updated) = Builds.update_build build_id (BuildField.updated_at now ∷ fields) r
  put_repository r'
  pure updated

-- The update that ends a teardown, and its answer.
unfoldable pub record_teardown : String → TeardownStatus → Action (Option TeardownStatus)
record_teardown build_id status = do
  _ ← update_now build_id (
      BuildField.teardown_status (some status)
      ∷ BuildField.teardown_required (not (is_torn_down status))
      ∷ [])
  pure (some status)

-- The answer's status; `none` stands for "not_required".
unfoldable pub sync_from : String → BuildJob → Action (Option TeardownStatus)
sync_from build_id build = do
  r ← get_repository
  if not build.teardown_required && not (is_some build.teardown_status)
      then pure none
      else record_teardown build_id (teardown_status_of (lookup build_id r.build_resources))

unfoldable pub sync_teardown : String → Action (Option TeardownStatus)
sync_teardown build_id = do build ← get_build build_id; sync_from build_id build

-- after the `try`: its `except` clause, or the last line
abbrev pub after_cleanup : String → Result (Unit {0}) → Action (Option TeardownStatus)
after_cleanup build_id (ok u) = sync_teardown build_id
after_cleanup build_id (err e) = record_teardown build_id TeardownStatus.partial_failed

-- `cleanup` is the callback, or `BuildCleanupRunner.run` where none is given.
module _ (legacy : BuildJob → Repository → BuildResources) (jenkins : Option Jenkins)
    (cleanup : String → Action (Unit {0})) where
  -- the body of the `try`
  unfoldable pub clean_up : String → Action (Unit {0})
  clean_up build_id = do
    _ ← request_cleanup (manifest legacy) jenkins build_id false
    _ ← update_now build_id (BuildField.teardown_status (some TeardownStatus.running) ∷ [])
    cleanup build_id

  -- `teardown` after it has read the build
  unfoldable pub teardown_from : String → BuildJob → Action (Option TeardownStatus)
  teardown_from build_id build =
      if build.teardown_required
      then (do outcome ← observe (clean_up build_id); after_cleanup build_id outcome)
      else sync_teardown build_id

  unfoldable pub teardown : String → Action (Option TeardownStatus)
  teardown build_id = do build ← get_build build_id; teardown_from build_id build

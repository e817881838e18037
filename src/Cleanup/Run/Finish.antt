-- ===== src/Cleanup/Run/Finish.antt =====
-- `BuildCleanupRunner.run`: the kinds in their order, and the result.
use docker_jenkins_orchestra.Prelude.{
  ℕ, String, Bool, true, false, ◌&&◌, ◌||◌, Option, none, some, List, [], ◌∷◌, ◌++◌, if◌then◌else◌,
  ◌==◌, nat_eq, string_eq, concat, option_eq, pair_eq, any,
}
use docker_jenkins_orchestra.Prelude.Dict.{values}
use docker_jenkins_orchestra.Models.Value.{Value, str, truthy}
use docker_jenkins_orchestra.Models.Resources.{
  BuildResource, BuildResources, CleanupStatus, ResourceKind,
}
use docker_jenkins_orchestra.Repository.Resources.{
  ManifestField, cleanup_status_is, update_build_resources,
}
use docker_jenkins_orchestra.Tracker.{ResourceTracker, metadata_get, is_kind, guard}
use docker_jenkins_orchestra.Cleanup.{Jenkins, assert_quiescent, with_build_lease}
use docker_jenkins_orchestra.Cleanup.Request.{is_underway, owner_is}
use docker_jenkins_orchestra.Cleanup.Run.{
  observe, Docker, Cleaners, Progress, safe_error, stored_manifest, is_removed, with_error,
  mark_verified, record_verification, clean_resources,
}
use docker_jenkins_orchestra.World.{
  Action, Result, ok, err, Error, pure, raise, utc_now, ◌>>=◌, ◌>>◌,
}

-- `order`
abbrev pub cleanup_order : List ResourceKind
cleanup_order =
    ResourceKind.service ∷ ResourceKind.container ∷ ResourceKind.volume ∷ ResourceKind.workspace
    ∷ ResourceKind.runtime_directory ∷ ResourceKind.network ∷ ResourceKind.port
    ∷ ResourceKind.local_image ∷ ResourceKind.registry_image ∷ []

abbrev pub after_discovery : Result (Unit {0}) → Progress → Progress
after_discovery (ok u) p = p
after_discovery (err e) p = record (with_error e p) { discovery_complete = false }

-- the containers that are found once the services are gone
abbrev pub rediscover : ResourceTracker → Progress → Bool → Option Docker → Action Progress
rediscover tracker p true (some docker) = do
  outcome ←
      observe (do guard tracker; docker.discover tracker; docker.wait_containers_stopped tracker)
  pure (after_discovery outcome p)
rediscover tracker p _ _ = pure p

abbrev pub with_errors_of : Result (Unit {0}) → Progress → Progress
with_errors_of (ok u) p = p
with_errors_of (err e) p = with_error e p

-- the last look of Docker at the build
abbrev pub verify_empty : ResourceTracker → Progress → Option Docker → Action Progress
verify_empty tracker p none = pure p
verify_empty tracker p (some docker) = do
  outcome ← observe (do docker.discover tracker; docker.verify_empty tracker)
  pure (with_errors_of outcome p)

-- `remaining`
abbrev pub not_removed : List BuildResource → List BuildResource
not_removed [] = []
not_removed (r ∷ rs) = let rest = not_removed rs in if is_removed r then rest else r ∷ rest

-- the storage states that the removed images carry
abbrev pub image_states : List BuildResource → List Value
image_states [] = []
image_states (r ∷ rs) =
    let rest = image_states rs in
    let state = metadata_get "registry_storage_status" r.metadata in
    if is_kind r.kind ResourceKind.registry_image && is_removed r && truthy state
    then state ∷ rest
    else rest

abbrev pub is_shared : Value → Bool
is_shared (str s) = s == "shared_retained"
is_shared v = false

abbrev pub storage_status : List String → List Value → String → String
storage_status [] [] current = current
storage_status states images current =
    if any (λ s. s == "shared_retained") states || any is_shared images
    then "shared_retained"
    else "waiting_gc"

-- `"; ".join(errors)`
abbrev pub joined_errors : List String → String
joined_errors [] = ""
joined_errors (e ∷ []) = e
joined_errors (e ∷ (f ∷ es)) = concat (e ∷ "; " ∷ joined_errors (f ∷ es) ∷ [])

-- the status and the error that a cleanup ends with
abbrev pub verdict : List BuildResource → List String → CleanupStatus × Option String
verdict [] [] = (CleanupStatus.succeeded, none)
verdict left (e ∷ es) = (CleanupStatus.partial_failed, some (joined_errors (e ∷ es)))
verdict (r ∷ rs) [] =
    (CleanupStatus.partial_failed, some "Some build resources could not be removed")

abbrev pub saved_or_lost : CleanupStatus → Option BuildResources → Action CleanupStatus
saved_or_lost status none =
    raise (Error.resource_conflict "Build cleanup lease lost before saving result")
saved_or_lost status (some m) = pure status

-- the result, from the manifest as it is at the end
unfoldable pub save_result : ResourceTracker → Progress → Action CleanupStatus
save_result tracker p = do
  current ← stored_manifest tracker.build_id
  let (status, last_error) = verdict (not_removed (values current.resources)) p.errors
  guard tracker
  now ← utc_now
  updated ←
      update_build_resources tracker.build_id
        (ManifestField.cleanup_status status
          ∷ ManifestField.finished_at (some now)
          ∷ ManifestField.last_error last_error
          ∷ ManifestField.registry_storage_status (
              storage_status p.registry_states (image_states (values current.resources))
                current.registry_storage_status)
          ∷ [])
        (owner_is tracker ++ (cleanup_status_is CleanupStatus.running ∷ []))
  saved_or_lost status updated

abbrev pub is_container : ResourceKind → Bool
is_container kind = is_kind kind ResourceKind.container

module _ (cleaners : Cleaners) where
  -- the loop over the kinds
  unfoldable pub clean_kinds : ResourceTracker → Progress → List ResourceKind → Action Progress
  clean_kinds tracker p [] = pure p
  clean_kinds tracker p (kind ∷ kinds) = do
    q ← rediscover tracker p (is_container kind && p.discovery_complete) p.docker
    current ← stored_manifest tracker.build_id
    states ← clean_resources cleaners tracker q kind (values current.resources)
    clean_kinds tracker (record q { registry_states = q.registry_states ++ states }) kinds

  -- the builder's resources, and what is known of their verification
  abbrev pub collected : ResourceTracker → Progress → Result (Unit {0}) → Action Progress
  collected tracker p (err e) = do record_verification cleaners tracker e; pure (with_error e p)
  collected tracker p (ok u) = do
    prior ← stored_manifest tracker.build_id
    mark_verified tracker (values prior.resources)
    pure p

  -- the first discovery, for a build whose ownership is recorded
  abbrev pub discovered : ResourceTracker → Progress → Result Docker → Action Progress
  discovered tracker p (err e) = pure (with_error e p)
  discovered tracker p (ok docker) = do
    outcome ← observe (docker.discover tracker)
    pure (found outcome)
    where
      found : Result (Unit {0}) → Progress
      found (ok u) = record p { docker = some docker; discovery_complete = true }
      found (err e) = with_error e (record p { docker = some docker })

  abbrev pub discover_if_owned : ResourceTracker → Progress → ℕ → Action Progress
  discover_if_owned tracker p version =
      if version == 1 then discovered tracker p cleaners.docker else pure p

  unfoldable pub clean_build : BuildResources → ResourceTracker → Action CleanupStatus
  clean_build m tracker = do
    let start : Progress = record {
      docker = none;
      discovery_complete = m.ownership_version == 0;
      errors = [];
      registry_states = [];
    }
    outcome ← observe (cleaners.collect_builder_resources m tracker)
    p ← collected tracker start outcome
    q ← discover_if_owned tracker p m.ownership_version
    cleaned ← clean_kinds tracker q cleanup_order
    checked ← verify_empty tracker cleaned cleaned.docker
    save_result tracker checked

  abbrev pub clean_quiescent :
      BuildResources → ResourceTracker → Result (Unit {0}) → Action CleanupStatus
  clean_quiescent m tracker (ok u) = clean_build m tracker
  clean_quiescent m tracker (err e) = do
    now ← utc_now
    _ ←
        update_build_resources tracker.build_id
          (ManifestField.cleanup_status CleanupStatus.partial_failed
            ∷ ManifestField.finished_at (some now)
            ∷ ManifestField.last_error (some (safe_error e))
            ∷ [])
          (owner_is tracker)
    pure CleanupStatus.partial_failed

  abbrev pub started_or_now : Option ℕ → Action ℕ
  started_or_now none = utc_now
  started_or_now (some t) = pure t

  module _ (manifest : String → Action BuildResources) (jenkins : Option Jenkins) where
    unfoldable pub run_leased :
        BuildResources → String → Option ResourceTracker → Action CleanupStatus
    run_leased m build_id none = do current ← manifest build_id; pure current.cleanup_status
    run_leased m build_id (some tracker) = do
      started ← started_or_now m.started_at
      _ ←
          update_build_resources build_id
            (ManifestField.cleanup_status CleanupStatus.running
              ∷ ManifestField.started_at (some started)
              ∷ ManifestField.last_error none
              ∷ [])
            (owner_is tracker)
      quiescent ← observe (assert_quiescent jenkins build_id)
      clean_quiescent m tracker quiescent

    unfoldable pub run : String → Action CleanupStatus
    run build_id = do
      m ← manifest build_id
      if is_underway m.cleanup_status
          then with_build_lease build_id (CleanupStatus.queued ∷ CleanupStatus.running ∷ [])
              (run_leased m build_id)
          else pure m.cleanup_status

-- ===== src/Cleanup/Run.antt =====
-- `BuildCleanupRunner.run` of orchestrator/build_resources.py, up to its last loop, which marks the
-- records of the removed services.
pub mod Finish
pub mod Sound
pub mod Order
use docker_jenkins_orchestra.Prelude.{
  ℕ, zero, suc, ◌+◌, ◌-◌, ◌*◌, ◌/◌, ◌%◌, ◌^◌, ◌≤◌, ◌<◌, String, ◌≡◌, refl, sym, ap, ◌∙◌, ◌≢◌, ◌↔◌,
  ◌⊎◌, inl, inr, Bool, true, false, not, ◌&&◌, ◌||◌, Option, none, some, List, [], ◌∷◌, ◌++◌, map,
  arith, eq_iff, ltb, leb, nat_beq, if◌then◌else◌, nat_beq_iff, leb_iff, ltb_iff, Eq, ◌==◌, nat_eq,
  string_eq, concat, Bool-cases, Option-cases, is_some, ==-refl, option_eq, pair_eq, length, take,
  drop, all, any, length-append, length-take, length-drop, All, All-append, &&-both,
}
use docker_jenkins_orchestra.Prelude.Dict.{lookup, insert, values}
use docker_jenkins_orchestra.Models.Value.{str}
use docker_jenkins_orchestra.Models.Resources.{
  BuildResource, BuildResources, ResourceKind, ResourceState,
}
use docker_jenkins_orchestra.Tracker.{
  ResourceTracker, is_kind, or_no_manifest, record_resource, update, guard,
}
use docker_jenkins_orchestra.World.{
  Action, Result, ok, err, Error, pure, raise, lift, get_repository, ◌>>=◌, ◌>>◌,
}

-- `try: m except Exception as exc`, with the exception as a value
unfoldable pub observe {ℓ} : {A : Type ℓ} → Action A → Action (Result A)
observe m w = (ok (m w).0, (m w).1)

-- The Docker cleaner of docker_cleanup.py, by what its methods do.
pub record Docker : Type 0 where
  pub discover : ResourceTracker → Action (Unit {0})
  pub wait_containers_stopped : ResourceTracker → Action (Unit {0})
  pub assert_directory_unused : ResourceTracker → Action (Unit {0})
  pub remove : BuildResource → ResourceTracker → Action (Unit {0})
  pub verify_empty : ResourceTracker → Action (Unit {0})

-- The other parts that a cleanup calls: the collection of the builder's resources, the Docker
-- cleaner, the workspace, and the registry, which answers with the state of its storage.
pub record Cleaners : Type 0 where
  pub collect_builder_resources : BuildResources → ResourceTracker → Action (Unit {0})
  pub docker : Result Docker
  pub delete_snapshot : BuildResource → Result (Unit {0})
  pub remove_build_tag : BuildResource → ResourceTracker → Action String
  pub resource_key : String → String → String → String

-- `safe_error`; the errors of adapters, workspaces and the repository keep their text
abbrev pub safe_error : Error → String
safe_error (Error.resource_conflict message) = message
safe_error (Error.adapter_error message) = message
safe_error (Error.repository_error message) = message
safe_error (Error.duplicate_app message) = message
safe_error e = "Cleanup operation failed; inspect the protected resource or execution target"

abbrev pub stored_manifest : String → Action BuildResources
stored_manifest build_id = do r ← get_repository; or_no_manifest (lookup build_id r.build_resources)

abbrev pub is_removed : BuildResource → Bool
is_removed resource = elim resource.state [ ResourceState.removed ↦ true | _ ↦ false ]

-- what a cleanup carries from kind to kind
pub record Progress : Type 0 where
  pub docker : Option Docker
  pub discovery_complete : Bool
  pub errors : List String
  pub registry_states : List String

abbrev pub with_error : Error → Progress → Progress
with_error e p = record p { errors = p.errors ++ safe_error e ∷ [] }

abbrev pub is_verification : BuildResource → Bool
is_verification resource =
    is_kind resource.kind ResourceKind.builder_cache
    && resource.name == "jenkins-resource-verification"

abbrev pub mark_verified : ResourceTracker → List BuildResource → Action (Unit {0})
mark_verified tracker [] = pure tt
mark_verified tracker (resource ∷ rest) =
    if is_verification resource
    then (do update tracker resource ResourceState.removed none; mark_verified tracker rest)
    else mark_verified tracker rest

abbrev pub is_runtime : BuildResource → Bool
is_runtime resource =
    is_kind resource.kind ResourceKind.service || is_kind resource.kind ResourceKind.container

-- whether a service or a container is still there
abbrev pub outstanding : BuildResources → Bool
outstanding m =
    any (λ resource. is_runtime resource && not (is_removed resource)) (values m.resources)

abbrev pub refuse_cleanup : Bool → String → Action (Unit {0})
refuse_cleanup true message = raise (Error.resource_conflict message)
refuse_cleanup false message = pure tt

abbrev pub unused_directory : Option Docker → ResourceTracker → Action (Unit {0})
unused_directory none tracker = pure tt
unused_directory (some docker) tracker = docker.assert_directory_unused tracker

abbrev pub docker_remove : Option Docker → BuildResource → ResourceTracker → Action (Unit {0})
docker_remove none resource tracker =
    raise (Error.resource_conflict "Docker cleanup target is unavailable")
docker_remove (some docker) resource tracker = docker.remove resource tracker

module _ (cleaners : Cleaners) where
  abbrev pub record_verification : ResourceTracker → Error → Action (Unit {0})
  record_verification tracker e = do
    _ ← record_resource cleaners.resource_key tracker (record {
      kind = ResourceKind.builder_cache;
      name = "jenkins-resource-verification";
      target = "jenkins";
      native_id = none;
      state = ResourceState.error;
      managed = true;
      metadata = [];
      error = some (safe_error e);
    })
    pure tt

  -- the removal of one resource: the resource as it is then, and what the registry answers
  abbrev pub remove_by_kind :
      ResourceTracker
      → Progress
      → BuildResource
      → ResourceKind
      → Action (BuildResource × List String)
  remove_by_kind tracker p resource ResourceKind.workspace = do
    refuse_cleanup (not (resource.target == "workspace")) "Unregistered directory cleanup target"
    unused_directory p.docker tracker
    guard tracker
    lift (cleaners.delete_snapshot resource)
    pure (resource, [])
  remove_by_kind tracker p resource ResourceKind.runtime_directory =
      raise (Error.resource_conflict "Unregistered directory cleanup target")
  remove_by_kind tracker p resource ResourceKind.registry_image = do
    state ← cleaners.remove_build_tag resource tracker
    pure (
      record resource { metadata = insert "registry_storage_status" (str state) resource.metadata },
      state ∷ [],
    )
  remove_by_kind tracker p resource kind = do
    docker_remove p.docker resource tracker
    pure (resource, [])

  unfoldable pub remove_resource : ResourceTracker → Progress → BuildResource → Action (List String)
  remove_resource tracker p resource = do
    latest ← stored_manifest tracker.build_id
    refuse_cleanup (not (is_runtime resource) && (outstanding latest || not p.discovery_complete))
        "Build runtime resources have not been fully removed"
    (removed, states) ← remove_by_kind tracker p resource resource.kind
    update tracker removed ResourceState.removed none
    pure states

  -- The source keeps the registry's answer before the update; where that update raises, so does the
  -- one here, and no result is saved from the answer.
  abbrev pub after_removal :
      ResourceTracker → BuildResource → Result (List String) → Action (List String)
  after_removal tracker resource (ok states) = pure states
  after_removal tracker resource (err e) = do
    update tracker resource ResourceState.error (some (safe_error e))
    pure []

  abbrev pub error_or_default : Option String → String
  error_or_default none = "Resource ownership is not exclusive"
  error_or_default (some s) = if s == "" then "Resource ownership is not exclusive" else s

  -- one turn of the inner loop
  unfoldable pub clean_resource :
      ResourceTracker → Progress → ResourceKind → BuildResource → Action (List String)
  clean_resource tracker p kind resource =
      if not (is_kind resource.kind kind) || is_removed resource then pure [] else (do
        guard tracker
        if resource.managed
            then (do
              outcome ← observe (remove_resource tracker p resource)
              after_removal tracker resource outcome)
            else (do
              update tracker resource ResourceState.blocked (some (error_or_default resource.error))
              pure []))

  unfoldable pub clean_resources :
      ResourceTracker → Progress → ResourceKind → List BuildResource → Action (List String)
  clean_resources tracker p kind [] = pure []
  clean_resources tracker p kind (resource ∷ rest) = do
    states ← clean_resource tracker p kind resource
    others ← clean_resources tracker p kind rest
    pure (states ++ others)

-- ===== src/Tracker.antt =====
-- `ResourceTracker` of orchestrator/build_resources.py: the resources of one build, recorded in
-- its manifest by the owner of its lease.
mod Report
pub mod Identity
pub mod Guard
use docker_jenkins_orchestra.Prelude.{
  ℕ, zero, suc, ◌+◌, ◌-◌, ◌*◌, ◌/◌, ◌%◌, ◌^◌, ◌≤◌, ◌<◌, String, ◌≡◌, refl, sym, ap, ◌∙◌, ◌≢◌, ◌↔◌,
  ◌⊎◌, inl, inr, Bool, true, false, not, ◌&&◌, ◌||◌, Option, none, some, List, [], ◌∷◌, ◌++◌, map,
  arith, eq_iff, ltb, leb, nat_beq, if◌then◌else◌, nat_beq_iff, leb_iff, ltb_iff, Eq, ◌==◌, nat_eq,
  string_eq, concat, Bool-cases, Option-cases, is_some, ==-refl, option_eq, pair_eq, length, take,
  drop, all, any, length-append, length-take, length-drop, All, All-append,
}
use docker_jenkins_orchestra.Prelude.Dict.{Dict, lookup, insert}
use docker_jenkins_orchestra.Models.Value.{Value, null, truthy, same_value}
use docker_jenkins_orchestra.Models.Resources.{
  ResourceKind, ResourceState, BuildResource, BuildResources,
}
use docker_jenkins_orchestra.Repository.Resources.{put_build_resource, lease_expired}
use docker_jenkins_orchestra.World.{
  Action, Error, pure, raise, get_repository, utc_now, ◌>>=◌, ◌>>◌,
}

pub record ResourceTracker : Type 0 where
  pub build_id : String
  pub owner : Option String

-- the word of `BuildResource.kind`
abbrev pub kind_value : ResourceKind → String
kind_value ResourceKind.service = "service"
kind_value ResourceKind.container = "container"
kind_value ResourceKind.network = "network"
kind_value ResourceKind.volume = "volume"
kind_value ResourceKind.workspace = "workspace"
kind_value ResourceKind.runtime_directory = "runtime_directory"
kind_value ResourceKind.local_image = "local_image"
kind_value ResourceKind.registry_image = "registry_image"
kind_value ResourceKind.port = "port"
kind_value ResourceKind.builder_cache = "builder_cache"

-- the arguments of `record`; no metadata is an empty dictionary
pub record ResourceReport : Type 0 where
  pub kind : ResourceKind
  pub name : String
  pub target : String
  pub native_id : Option String
  pub state : ResourceState
  pub managed : Bool
  pub metadata : Dict String Value
  pub error : Option String

-- `metadata.get(key)`
abbrev pub metadata_get : String → Dict String Value → Value
metadata_get key metadata = elim (lookup key metadata) [ none ↦ null | some v ↦ v ]

abbrev pub is_kind : ResourceKind → ResourceKind → Bool
is_kind a b = kind_value a == kind_value b

abbrev pub other_id : Option String → Option String → Bool
other_id (some new) (some known) = not (known == new)
other_id _ _ = false

abbrev pub volume_changed : ResourceReport → BuildResource → Bool
volume_changed report existing =
    is_kind report.kind ResourceKind.volume
    && truthy (metadata_get "creation_token" existing.metadata)
    && is_some (lookup "creation_token" report.metadata)
    && not (
        same_value (metadata_get "creation_token" report.metadata)
          (metadata_get "creation_token" existing.metadata))

abbrev pub digest_changed : ResourceReport → BuildResource → Bool
digest_changed report existing =
    is_kind report.kind ResourceKind.registry_image
    && truthy (metadata_get "digest" existing.metadata)
    && truthy (metadata_get "digest" report.metadata)
    && not (
        same_value (metadata_get "digest" report.metadata)
          (metadata_get "digest" existing.metadata))

-- `native_id or existing.native_id`
abbrev pub id_or : Option String → Option String → Option String
id_or none known = known
id_or (some new) known = if new == "" then known else some new

-- `{**old, **new}`
unfoldable pub merge : Dict String Value → Dict String Value → Dict String Value
merge old [] = old
merge old ((k, v) ∷ new) = merge (insert k v old) new

abbrev pub changed : ResourceReport → BuildResource → ℕ → BuildResource
changed report existing now = record existing {
  native_id = id_or report.native_id existing.native_id;
  state = report.state;
  managed = report.managed;
  metadata = merge existing.metadata report.metadata;
  error = report.error;
  updated_at = now;
}

-- how a report contradicts the resource that is known
unfoldable pub conflict : ResourceReport → BuildResource → Option String
conflict report existing =
    if other_id report.native_id existing.native_id
    then some "Resource identity changed"
    else if volume_changed report existing
    then some "Volume creation identity changed"
    else if digest_changed report existing
    then some "Build image digest changed"
    else none

abbrev pub change_unless : Option String → ResourceReport → BuildResource → Action BuildResource
change_unless (some message) report existing = raise (Error.resource_conflict message)
change_unless none report existing = do now ← utc_now; pure (changed report existing now)

-- the resource that `record` stores
abbrev pub resource_after : String → ResourceReport → Option BuildResource → Action BuildResource
resource_after key report none = do
  created_at ← utc_now
  updated_at ← utc_now
  pure (record {
    key = key;
    kind = report.kind;
    name = report.name;
    target = report.target;
    native_id = report.native_id;
    managed = report.managed;
    state = report.state;
    metadata = merge [] report.metadata;
    error = report.error;
    created_at = created_at;
    updated_at = updated_at;
  })
resource_after key report (some existing) = change_unless (conflict report existing) report existing

abbrev pub or_no_manifest : Option BuildResources → Action BuildResources
or_no_manifest none = raise (Error.repository_error "Build resources not found")
or_no_manifest (some m) = pure m

-- `resource_key` is the SHA-256 of the JSON text of a kind, a target and a name.
module _ (resource_key : String → String → String → String) where
  unfoldable pub record_resource : ResourceTracker → ResourceReport → Action BuildResource
  record_resource tracker report = do
    r ← get_repository
    manifest ← or_no_manifest (lookup tracker.build_id r.build_resources)
    let key = resource_key (kind_value report.kind) report.target report.name
    resource ← resource_after key report (lookup key manifest.resources)
    put_build_resource tracker.build_id resource tracker.owner
    pure resource

unfoldable pub update :
    ResourceTracker → BuildResource → ResourceState → Option String → Action (Unit {0})
update tracker resource state error = do
  now ← utc_now
  put_build_resource tracker.build_id
      (record resource { state = state; error = error; updated_at = now }) tracker.owner
  pure tt

abbrev pub lease_lost : String → BuildResources → Action Bool
lease_lost owner m =
    if m.lease_owner == some owner && is_some m.lease_expires_at
    then (do now ← utc_now; pure (lease_expired m.lease_expires_at now))
    else pure true

abbrev pub raise_if_lost : Bool → Action (Unit {0})
raise_if_lost true = raise (Error.resource_conflict "Build resource lease lost")
raise_if_lost false = pure tt

abbrev pub guard_manifest : Option String → Option BuildResources → Action (Unit {0})
guard_manifest owner none = raise (Error.resource_conflict "Build resource state is unavailable")
guard_manifest none (some m) = pure tt
guard_manifest (some owner) (some m) = do lost ← lease_lost owner m; raise_if_lost lost

unfoldable pub guard : ResourceTracker → Action (Unit {0})
guard tracker = do
  r ← get_repository
  guard_manifest tracker.owner (lookup tracker.build_id r.build_resources)

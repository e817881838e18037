-- ===== src/Repository/Resources.antt =====
-- The resource manifests of `InMemoryRepository`, and the lease that guards each of them.
pub mod Lease
pub mod Exclusion
pub mod Granted
pub mod Put
use docker_jenkins_orchestra.Prelude.{
  ℕ, String, Bool, true, false, not, ◌&&◌, ◌||◌, Option, none, some, List, [], ◌∷◌, leb,
  if◌then◌else◌, ◌==◌, nat_eq, string_eq, is_some, option_eq, pair_eq, all, any,
}
use docker_jenkins_orchestra.Prelude.Dict.{lookup, insert, values}
use docker_jenkins_orchestra.Text.{codes}
use docker_jenkins_orchestra.Text.Regex.{Regex, cls, times, fullmatch}
use docker_jenkins_orchestra.Models.Resources.{
  CleanupStatus, cleanup_status_eq, BuildResource, BuildResources,
}
use docker_jenkins_orchestra.Repository.State.{Repository}
use docker_jenkins_orchestra.World.{
  Action, Error, pure, raise, get_repository, put_repository, utc_now, ◌>>=◌, ◌>>◌,
}

-- One entry of the `fields` of an update.
pub data ManifestField : Type 0 where
  cleanup_status : CleanupStatus → ManifestField
  cleanup_generation : ℕ → ManifestField
  cleanup_requested_at started_at finished_at lease_expires_at : Option ℕ → ManifestField
  last_error : Option String → ManifestField
  registry_storage_status : String → ManifestField
  jenkins_trigger_pending : Bool → ManifestField

-- One entry of `expected`.
pub data Expectation : Type 0 where
  lease_owner_is : String → Expectation
  cleanup_status_is : CleanupStatus → Expectation
  cleanup_generation_is : ℕ → Expectation

unfoldable pub set_manifest_field : ManifestField → BuildResources → BuildResources
set_manifest_field (ManifestField.cleanup_status s) m = record m { cleanup_status = s }
set_manifest_field (ManifestField.cleanup_generation n) m = record m { cleanup_generation = n }
set_manifest_field (ManifestField.cleanup_requested_at t) m = record m { cleanup_requested_at = t }
set_manifest_field (ManifestField.started_at t) m = record m { started_at = t }
set_manifest_field (ManifestField.finished_at t) m = record m { finished_at = t }
set_manifest_field (ManifestField.lease_expires_at t) m = record m { lease_expires_at = t }
set_manifest_field (ManifestField.last_error e) m = record m { last_error = e }
set_manifest_field (ManifestField.registry_storage_status s) m = record m {
  registry_storage_status = s;
}
set_manifest_field (ManifestField.jenkins_trigger_pending b) m = record m {
  jenkins_trigger_pending = b;
}

unfoldable pub update_manifest_fields : List ManifestField → BuildResources → BuildResources
unfolding set_manifest_field
update_manifest_fields [] m = m
update_manifest_fields (f ∷ fs) m = update_manifest_fields fs (set_manifest_field f m)

abbrev pub meets : BuildResources → Expectation → Bool
meets m (lease_owner_is owner) = m.lease_owner == some owner
meets m (cleanup_status_is status) = m.cleanup_status == status
meets m (cleanup_generation_is n) = m.cleanup_generation == n

-- `expected.get("lease_owner") is not None`
abbrev pub expects_owner : List Expectation → Bool
expects_owner [] = false
expects_owner (lease_owner_is owner ∷ es) = true
expects_owner (e ∷ es) = expects_owner es

-- `_lease_expired`
abbrev pub lease_expired : Option ℕ → ℕ → Bool
lease_expired none now = true
lease_expired (some t) now = leb t now

-- `_validate_resource_key`
abbrev pub resource_key_pattern : Regex
resource_key_pattern =
    times 64 (cls (λ c. (leb b'a' c && leb c b'f') || (leb b'0' c && leb c b'9')))

unfoldable pub is_resource_key : String → Bool
is_resource_key key = fullmatch resource_key_pattern (codes key)

abbrev pub store_manifest : String → BuildResources → Repository → Repository
store_manifest build_id m r = record r { build_resources = insert build_id m r.build_resources }

unfoldable pub get_build_resources : String → Repository → Option BuildResources
get_build_resources build_id r = lookup build_id r.build_resources

-- `setdefault`: the first manifest of a build stays.
abbrev pub ensure_existing : BuildResources → Option BuildResources → Action BuildResources
ensure_existing m none = do
  r ← get_repository
  put_repository (store_manifest m.build_id m r)
  pure m
ensure_existing m (some existing) =
    if existing.appid == m.appid
    then pure existing
    else raise (Error.repository_error "Build resource owner mismatch")

unfoldable pub ensure_build_resources : BuildResources → Action BuildResources
ensure_build_resources m = do
  r ← get_repository
  ensure_existing m (lookup m.build_id r.build_resources)

-- Whether the owner that the caller names has lost the lease; the clock is read only if the owner
-- is the stored one.
abbrev pub lease_lost : Option String → BuildResources → Action Bool
lease_lost none m = pure false
lease_lost (some owner) m =
    if m.lease_owner == some owner
    then (do now ← utc_now; pure (lease_expired m.lease_expires_at now))
    else pure true

abbrev pub put_resource : String → BuildResource → BuildResources → Bool → Action BuildResources
put_resource build_id resource m true = raise (Error.repository_error "Build resource lease lost")
put_resource build_id resource m false = do
  stamp ← utc_now
  r ← get_repository
  let updated = record m {
    resources = insert resource.key resource m.resources;
    updated_at = stamp;
  }
  put_repository (store_manifest build_id updated r)
  pure updated

abbrev pub put_found :
    String → BuildResource → Option String → Option BuildResources → Action BuildResources
put_found build_id resource owner none = raise (Error.repository_error "Build resources not found")
put_found build_id resource owner (some m) = do
  lost ← lease_lost owner m
  put_resource build_id resource m lost

unfoldable pub put_build_resource : String → BuildResource → Option String → Action BuildResources
put_build_resource build_id resource owner =
    if is_resource_key resource.key
    then (do
      r ← get_repository
      put_found build_id resource owner (lookup build_id r.build_resources))
    else raise (Error.value_error "Invalid resource key")

-- An update that names the lease owner also wants the lease to be running.
abbrev pub owner_expired : List Expectation → BuildResources → Action Bool
owner_expired expected m =
    if expects_owner expected
    then (do now ← utc_now; pure (lease_expired m.lease_expires_at now))
    else pure false

abbrev pub update_manifest :
    String → List ManifestField → BuildResources → Bool → Action (Option BuildResources)
update_manifest build_id fields m true = pure none
update_manifest build_id fields m false = do
  stamp ← utc_now
  r ← get_repository
  let updated = record (update_manifest_fields fields m) { updated_at = stamp }
  put_repository (store_manifest build_id updated r)
  pure (some updated)

abbrev pub update_found :
    String
    → List ManifestField
    → List Expectation
    → Option BuildResources
    → Action (Option BuildResources)
update_found build_id fields expected none = pure none
update_found build_id fields expected (some m) =
    if all (meets m) expected
    then (do expired ← owner_expired expected m; update_manifest build_id fields m expired)
    else pure none

unfoldable pub update_build_resources :
    String → List ManifestField → List Expectation → Action (Option BuildResources)
update_build_resources build_id fields expected = do
  r ← get_repository
  update_found build_id fields expected (lookup build_id r.build_resources)

-- Whether somebody holds the lease; the clock is read only if there is an owner.
abbrev pub lease_held : BuildResources → Action Bool
lease_held m = elim m.lease_owner [
  | none ↦ pure false
  | some owner ↦ (do now ← utc_now; pure (not (lease_expired m.lease_expires_at now)))
]

abbrev pub take_lease : String → String → ℕ → BuildResources → Bool → Action (Option BuildResources)
take_lease build_id owner expires_at m true = pure none
take_lease build_id owner expires_at m false = do
  stamp ← utc_now
  r ← get_repository
  let leased = record m {
    lease_owner = some owner;
    lease_expires_at = some expires_at;
    updated_at = stamp;
  }
  put_repository (store_manifest build_id leased r)
  pure (some leased)

abbrev pub claim_found :
    String
    → String
    → ℕ
    → List CleanupStatus
    → Option BuildResources
    → Action (Option BuildResources)
claim_found build_id owner expires_at statuses none = pure none
claim_found build_id owner expires_at statuses (some m) =
    if any (λ s. m.cleanup_status == s) statuses
    then (do held ← lease_held m; take_lease build_id owner expires_at m held)
    else pure none

unfoldable pub claim_build_lease :
    String → String → ℕ → List CleanupStatus → Action (Option BuildResources)
claim_build_lease build_id owner expires_at statuses = do
  r ← get_repository
  claim_found build_id owner expires_at statuses (lookup build_id r.build_resources)

unfoldable pub renew_build_lease : String → String → ℕ → Action Bool
renew_build_lease build_id owner expires_at = do
  updated ←
      update_build_resources build_id (ManifestField.lease_expires_at (some expires_at) ∷ [])
        (lease_owner_is owner ∷ [])
  pure (is_some updated)

abbrev pub released : String → String → Option BuildResources → Repository → Repository
released build_id owner none r = r
released build_id owner (some m) r =
    if m.lease_owner == some owner
    then store_manifest build_id (record m { lease_owner = none; lease_expires_at = none }) r
    else r

unfoldable pub release_build_lease : String → String → Action (Unit {0})
release_build_lease build_id owner = do
  r ← get_repository
  put_repository (released build_id owner (lookup build_id r.build_resources) r)

abbrev pub wants_cleanup : BuildResources → Bool
wants_cleanup m =
    m.cleanup_status == CleanupStatus.queued || m.cleanup_status == CleanupStatus.running

abbrev pub cleanup_wanted : List BuildResources → List BuildResources
cleanup_wanted [] = []
cleanup_wanted (m ∷ ms) = let rest = cleanup_wanted ms in if wants_cleanup m then m ∷ rest else rest

unfoldable pub list_cleanup_resources : Action (List BuildResources)
list_cleanup_resources = do r ← get_repository; pure (cleanup_wanted (values r.build_resources))

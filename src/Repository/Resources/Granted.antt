-- ===== src/Repository/Resources/Granted.antt =====
-- `update_build_resources`: what an update that is granted stores.
use std.Path.{subst}
use docker_jenkins_orchestra.Prelude.{
  ℕ, String, ◌≡◌, refl, sym, ap, ◌∙◌, Bool, true, false, Option, none, some, List, if◌then◌else◌,
  nat_eq, string_eq, ==-refl, option_eq, pair_eq, all,
}
use docker_jenkins_orchestra.Prelude.Dict.{lookup, lookup-insert}
use docker_jenkins_orchestra.Models.Resources.{BuildResources, cleanup_status_eq}
use docker_jenkins_orchestra.Repository.Resources.{
  ManifestField, Expectation, update_build_resources, update_manifest_fields, update_found,
  update_manifest, meets, owner_expired,
}
use docker_jenkins_orchestra.World.{
  Action, World, ok, pure, get_repository-bind, ◌>>=◌, >>=-ok, pure-ok,
}

-- what an update that is granted has stored
abbrev pub Granted : String → List ManifestField → BuildResources → BuildResources → World → Type 0
Granted build_id fields m u v =
    (stamp : ℕ) × (u ≡ record (update_manifest_fields fields m) { updated_at = stamp })
    × (lookup build_id v.repository.build_resources ≡ some u)

update_manifest-Granted :
    (build_id : String) (fields : List ManifestField) (m u : BuildResources) (expired : Bool)
    (w : World)
    → (update_manifest build_id fields m expired w).0 ≡ ok (some u)
    → Granted build_id fields m u (update_manifest build_id fields m expired w).1
unfolding ◌>>=◌
update_manifest-Granted build_id fields m u true w h = cc h
update_manifest-Granted build_id fields m u false w h =
    let made : record (update_manifest_fields fields m) { updated_at = w.clock w.ticks } ≡ u =
      cc h in
    (w.clock w.ticks, sym made, looked_up ∙ ap some made)
  where
    looked_up :
        lookup build_id (update_manifest build_id fields m false w).1.repository.build_resources
        ≡ some (record (update_manifest_fields fields m) { updated_at = w.clock w.ticks })
    looked_up =
        lookup-insert build_id build_id _ w.repository.build_resources ∙ rw (==-refl build_id) refl

if-some :
    {A : Type 0} (c : Bool) (a : Action (Option A)) (u : A) (w : World)
    → ((if c then a else pure none) w).0 ≡ ok (some u)
    → ((a w).0 ≡ ok (some u)) × ((if c then a else pure none) w ≡ a w)
if-some true a u w h = (h, refl)
if-some false a u w h = let bad : none ≡ some u = pure-ok none (some u) w h in cc bad

update_found-Granted :
    (build_id : String) (fields : List ManifestField) (expected : List Expectation)
    (o : Option BuildResources) (u : BuildResources) (w : World)
    → (update_found build_id fields expected o w).0 ≡ ok (some u)
    → (m : BuildResources) × (o ≡ some m)
      × Granted build_id fields m u (update_found build_id fields expected o w).1
update_found-Granted build_id fields expected none u w h =
    let bad : none ≡ some u = pure-ok none (some u) w h in cc bad
update_found-Granted build_id fields expected (some m) u w h =
    let (chosen, same) = if-some (all (meets m) expected) checked u w h in
    let (expired, _, done, ends) =
      >>=-ok (owner_expired expected m) (update_manifest build_id fields m) w chosen in
    (
      m,
      refl,
      subst (λ v. Granted build_id fields m u v.1) (sym (same ∙ ends))
          (update_manifest-Granted build_id fields m u expired _ done),
    )
  where
    checked : Action (Option BuildResources)
    checked = owner_expired expected m >>= update_manifest build_id fields m

-- what an update of the stored manifest that is granted has stored
pub update-Granted :
    (build_id : String) (fields : List ManifestField) (expected : List Expectation)
    (u : BuildResources) (w : World)
    → (update_build_resources build_id fields expected w).0 ≡ ok (some u)
    → (m : BuildResources) × (lookup build_id w.repository.build_resources ≡ some m)
      × Granted build_id fields m u (update_build_resources build_id fields expected w).1
unfolding update_build_resources
update-Granted build_id fields expected u w h =
    let same =
      get_repository-bind
        (λ r. update_found build_id fields expected (lookup build_id r.build_resources)) w in
    let (m, found, granted) =
      update_found-Granted build_id fields expected (lookup build_id w.repository.build_resources) u
        w (sym (ap (λ v. v.0) same) ∙ h) in
    (m, found, subst (λ v. Granted build_id fields m u v.1) (sym same) granted)

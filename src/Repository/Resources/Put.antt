-- ===== src/Repository/Resources/Put.antt =====
-- What `put_build_resource` leaves in the manifest.
use docker_jenkins_orchestra.Prelude.{
  ℕ, ◌+◌, String, ◌≡◌, refl, ◌≢◌, inl, inr, Bool, true, false, Option, none, some, ◌==◌, nat_eq,
  string_eq, Bool-cases, option_eq, pair_eq,
}
use docker_jenkins_orchestra.Prelude.Dict.{lookup, insert}
use docker_jenkins_orchestra.Models.Resources.{BuildResource, BuildResources}
use docker_jenkins_orchestra.Repository.State.{Repository}
use docker_jenkins_orchestra.Repository.Resources.{
  put_build_resource, put_found, put_resource, is_resource_key, store_manifest,
}
use docker_jenkins_orchestra.World.{World, Error, Result, ok, err, ◌>>=◌}

pub same_ok : {A : Type 0} {a b : A} → ok a ≡ ok b → a ≡ b
same_ok h = cc h

pub err_ne_ok : {A : Type 0} {e : Error} {a : A} → err e ≢ ok a
err_ne_ok h = cc h

abbrev pub with_resource : BuildResource → ℕ → BuildResources → BuildResources
with_resource resource stamp m = record m {
  resources = insert resource.key resource m.resources;
  updated_at = stamp;
}

-- What `put_build_resource` leaves: nothing new, or the resource in the manifest.
pub data PutOutcome (id : String) (resource : BuildResource) (m : BuildResources) (r : Repository)
    (x : Result BuildResources) (r' : Repository) : Type 0 where
  refused : (e : Error) → x ≡ err e → r' ≡ r → PutOutcome id resource m r x r'
  stored :
      (u : BuildResources) (stamp : ℕ)
      → x ≡ ok u
      → r' ≡ store_manifest id (with_resource resource stamp m) r
      → PutOutcome id resource m r x r'

module _ (id : String) (resource : BuildResource) (m : BuildResources) where
  abbrev Outcome : Result BuildResources × World → Repository → Type 0
  Outcome p r = PutOutcome id resource m r p.0 p.1.repository

  put_resource-outcome :
      (lost : Bool) (w : World) → Outcome (put_resource id resource m lost w) w.repository
  unfolding ◌>>=◌
  put_resource-outcome true w = refused _ refl refl
  put_resource-outcome false w = stored _ _ refl refl

  put_found-outcome :
      (owner : Option String) (w : World)
      → Outcome (put_found id resource owner (some m) w) w.repository
  unfolding ◌>>=◌
  put_found-outcome none w = put_resource-outcome false w
  put_found-outcome (some o) w = elim (Bool-cases (m.lease_owner == some o)) [
    | inl own ↦ rw own (put_resource-outcome _ (record w { ticks = w.ticks + 1 }))
    | inr foreign ↦ rw foreign (refused _ refl refl)
  ]

  pub put-outcome :
      (owner : Option String) (w : World)
      → lookup id w.repository.build_resources ≡ some m
      → Outcome (put_build_resource id resource owner w) w.repository
  unfolding put_build_resource ◌>>=◌
  put-outcome owner w found = elim (Bool-cases (is_resource_key resource.key)) [
    | inl good ↦ rw (good, found) (put_found-outcome owner w)
    | inr bad ↦ rw bad (refused _ refl refl)
  ]

-- ===== src/Examples/Trackers.antt =====
-- A tracker on a build with one resource.
use docker_jenkins_orchestra.Prelude.{
  ◌<◌, String, ◌≡◌, refl, sym, ap, ◌∙◌, ◌↔◌, arith, inl, inr, true, none, some, List, [], ◌∷◌,
  eq_iff, if◌then◌else◌, ◌==◌, nat_eq, string_eq, Bool-cases, option_eq, pair_eq,
}
use docker_jenkins_orchestra.Prelude.Dict.{lookup, insert}
use docker_jenkins_orchestra.Models.Resources.{
  CleanupStatus, ResourceKind, ResourceState, BuildResource, BuildResources,
}
use docker_jenkins_orchestra.Repository.State.{empty_repository}
use docker_jenkins_orchestra.Repository.Resources.{claim_build_lease, release_build_lease}
use docker_jenkins_orchestra.Repository.Resources.Exclusion.{Call, Early, perform, perform_all}
use docker_jenkins_orchestra.Tracker.{ResourceTracker, ResourceReport, guard, record_resource}
use docker_jenkins_orchestra.Tracker.Identity.{Keyed, record_resource-keeps_identity}
use docker_jenkins_orchestra.Tracker.Guard.{guard_lasting}
use docker_jenkins_orchestra.World.{World, Error, ok, err, ◌>>=◌}
use docker_jenkins_orchestra.Examples.{a_manifest, a_world}

abbrev key : String
key = "aaaaaaaaaaaaaaaaaaaaaaaaaaaaaaaaaaaaaaaaaaaaaaaaaaaaaaaaaaaaaaaa"

-- one key for all, as there is one resource
abbrev pub resource_key : String → String → String → String
resource_key kind target name = key

abbrev known : BuildResource
known = record {
  key = key;
  kind = ResourceKind.service;
  name = "shop-web";
  target = "docker";
  native_id = some "id-1";
  managed = true;
  state = ResourceState.planned;
  metadata = [];
  error = none;
  created_at = 0;
  updated_at = 0;
}

abbrev m : BuildResources
m = record (a_manifest "b1" (some "one") (some 5000)) { resources = (key, known) ∷ [] }

abbrev pub w : World
w = a_world (record empty_repository { build_resources = ("b1", m) ∷ [] })

abbrev pub tracker : ResourceTracker
tracker = record { build_id = "b1"; owner = some "one" }

abbrev report : ResourceReport
report = record {
  kind = ResourceKind.service;
  name = "shop-web";
  target = "docker";
  native_id = none;
  state = ResourceState.present;
  managed = true;
  metadata = [];
  error = none;
}

found : lookup "b1" w.repository.build_resources ≡ some m
unfolding lookup
found = refl

keyed : Keyed m
unfolding lookup
keyed k b h = elim (Bool-cases (key == k)) [
  | inl same ↦
      let held : some known ≡ some b = rw same at h in
      let one : known ≡ b = cc held in
      sym (ap (λ (x : BuildResource). x.key) one) ∙ (eq_iff key k).0 same
  | inr other ↦ let none_held : none ≡ some b = rw other at h in cc none_held
]

record_resource-keeps_identity_example :
    let (x, after) = record_resource resource_key tracker report w in
    ((e : Error) → x ≡ err e → after.repository ≡ w.repository)
    × ((b : BuildResource)
        → x ≡ ok b
        → (m' : BuildResources) × (lookup "b1" after.repository.build_resources ≡ some m')
          × ((k : String)
              → lookup k m'.resources ≡ (if key == k then some b else lookup k m.resources))
          × (b.state ≡ ResourceState.present)
          × ((old : BuildResource) (id : String)
              → lookup key m.resources ≡ some old
              → old.native_id ≡ some id
              → b.native_id ≡ some id)
          × Keyed m')
record_resource-keeps_identity_example =
    record_resource-keeps_identity resource_key tracker report w m found keyed

passed : (guard tracker w).0 ≡ ok tt
unfolding guard lookup ◌>>=◌
passed = refl

-- another worker tries to take the lease, and to release it
abbrev calls : List (Call "b1" "one" 5000)
calls = Call.claim "b1" "two" 9000 (CleanupStatus.running ∷ []) ∷ Call.release "b1" "two" ∷ []

early : Early "b1" "one" 5000 calls w
unfolding perform claim_build_lease release_build_lease ◌>>=◌ lookup insert
early = (tt, omega arith, ((λ e. cc ((eq_iff "two" "one").1 e)), omega arith, tt))

guard_lasting_example :
    let later = perform_all "b1" "one" 5000 calls w in
    ((guard tracker later).0 ≡ ok tt) ↔ (later.clock later.ticks < 5000)
guard_lasting_example = guard_lasting "b1" "one" w m 5000 calls found refl passed early

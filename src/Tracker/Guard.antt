-- ===== src/Tracker/Guard.antt =====
-- What `guard` lets through, and for how long.
use docker_jenkins_orchestra.Prelude.{
  ℕ, ◌<◌, String, ◌≡◌, ◌≢◌, ◌↔◌, inl, inr, false, some, List, arith, leb, leb_iff, ◌==◌, nat_eq,
  string_eq, Bool-cases, Option-cases, option_eq, pair_eq,
}
use docker_jenkins_orchestra.Prelude.Dict.{lookup}
use docker_jenkins_orchestra.Models.Resources.{BuildResources}
use docker_jenkins_orchestra.Repository.Resources.Lease.{lease_of_found, Held}
use docker_jenkins_orchestra.Repository.Resources.Exclusion.{
  Call, Early, perform_all, perform_all-Held,
}
use docker_jenkins_orchestra.Tracker.{Error, ResourceTracker, guard, guard_manifest}
use docker_jenkins_orchestra.World.{World, ok, err, ◌>>=◌}

err_ne_ok : {A : Type 0} {e : Error} {a : A} → err e ≢ ok a
err_ne_ok h = cc h

module _ (owner : String) (m : BuildResources) (w : World) where
  abbrev Runs : Type 0
  Runs =
      (m.lease_owner ≡ some owner)
      × ((t : ℕ) × (m.lease_expires_at ≡ some t) × (w.clock w.ticks < t))

  passes-Runs : (guard_manifest (some owner) (some m) w).0 ≡ ok tt → Runs
  unfolding ◌>>=◌
  passes-Runs h = elim (Bool-cases (m.lease_owner == some owner)) [
    | inr foreign ↦ absurd (err_ne_ok (rw foreign at h))
    | inl own ↦ elim (Option-cases m.lease_expires_at) [
      | inl never ↦ absurd (err_ne_ok (rw (own, never) at h))
      | inr (t, ends) ↦ elim (Bool-cases (leb t (w.clock w.ticks))) [
        | inl over ↦ absurd (err_ne_ok (rw (own, ends, over) at h))
        | inr early ↦ (
          (option_eq.beq_iff m.lease_owner (some owner)).0 own,
          (t, ends, ground (arith, leb_iff t (w.clock w.ticks))),
        )
      ]
    ]
  ]

  Runs-passes : Runs → (guard_manifest (some owner) (some m) w).0 ≡ ok tt
  unfolding ◌>>=◌
  Runs-passes (own, (t, ends, early)) =
      let running : leb t (w.clock w.ticks) ≡ false = ground (arith, leb_iff t (w.clock w.ticks)) in
      rw ((option_eq.beq_iff m.lease_owner (some owner)).1 own, ends) (rw running)

module _ (id owner : String) where
  abbrev tracker : ResourceTracker
  tracker = record { build_id = id; owner = some owner }

  guard-Held :
      (w : World)
      → (guard tracker w).0 ≡ ok tt
      → (t : ℕ) × Held id owner t w.repository × (w.clock w.ticks < t)
  unfolding guard ◌>>=◌
  guard-Held w h = elim (Option-cases (lookup id w.repository.build_resources)) [
    | inl absent ↦ absurd (err_ne_ok (rw absent at h))
    | inr (m, found) ↦
        let (own, (t, ends, early)) = passes-Runs owner m w (rw found at h) in
        (t, rw found (cc (own, ends)), early)
  ]

  Held-guard :
      (w : World) (t : ℕ)
      → Held id owner t w.repository
      → w.clock w.ticks < t
      → (guard tracker w).0 ≡ ok tt
  unfolding guard ◌>>=◌
  Held-guard w t held early =
      let (m, found, own, ends) = lease_of_found id w.repository held in
      rw found (Runs-passes owner m w (own, (t, ends, early)))

  owner_of_passed :
      (w : World) (m : BuildResources)
      → lookup id w.repository.build_resources ≡ some m
      → (guard tracker w).0 ≡ ok tt
      → m.lease_owner ≡ some owner
  unfolding guard ◌>>=◌
  owner_of_passed w m found h = let (own, _) = passes-Runs owner m w (rw found at h) in own

  -- When the guard of a lease owner passes on a stored manifest, whose lease ends at a time `t`:
  -- after whatever calls the other workers make before `t`, in any order and on any builds, with
  -- updates of their own that set no end of a lease, the guard passes exactly as long as the clock
  -- is before `t`.
  pub guard_lasting :
      (w : World) (m : BuildResources) (t : ℕ) (cs : List (Call id owner t))
      → lookup id w.repository.build_resources ≡ some m
      → m.lease_expires_at ≡ some t
      → (guard tracker w).0 ≡ ok tt
      → Early id owner t cs w
      → let later = perform_all id owner t cs w in
        ((guard tracker later).0 ≡ ok tt) ↔ (later.clock later.ticks < t)
  guard_lasting w m t cs found ends passed others =
      let later = perform_all id owner t cs w in
      let own = owner_of_passed w m found passed in
      let held : Held id owner t w.repository = rw found (cc (own, ends)) in
      let still : Held id owner t later.repository = perform_all-Held id owner t cs w others held in
      (
        λ passes.
            let (t', held', early) = guard-Held later passes in
            let same : t' ≡ t = cc (still, held') in omega (arith, same, early),
        λ early. Held-guard later t still early,
      )

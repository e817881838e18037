-- ===== src/Repository/Resources/Exclusion.antt =====
-- Any sequence of calls by others leaves a running lease where it is.
use docker_jenkins_orchestra.Prelude.{
  ℕ, ◌+◌, ◌<◌, String, ◌≡◌, refl, ◌∙◌, ◌≢◌, ◌⊎◌, inl, inr, Bool, true, false, ◌&&◌, Option, some,
  List, [], ◌∷◌, arith, nat_eq, string_eq, Bool-cases, Option-cases, is_some, option_eq, pair_eq,
  all,
}
use docker_jenkins_orchestra.Prelude.Dict.{lookup}
use docker_jenkins_orchestra.Models.Resources.{CleanupStatus, BuildResource, BuildResources}
use docker_jenkins_orchestra.Repository.Resources.{
  expects_owner, claim_build_lease, release_build_lease, put_build_resource, ManifestField,
  Expectation, lease_owner_is, update_manifest_fields, meets, update_manifest, update_found,
  update_build_resources, claim_build_lease, renew_build_lease, release_build_lease,
  put_build_resource,
}
use docker_jenkins_orchestra.Repository.Resources.Lease.{
  Held, store-Held, same_manifest, one_owner, claim-Held, release-Held, put-Held,
}
use docker_jenkins_orchestra.World.{continue, pure, err, ok, Result, World, Result, ok, ◌>>=◌}

-- an update that sets no end of a lease
abbrev pub KeepsLease : List ManifestField → Type 0
KeepsLease [] = Unit
KeepsLease (ManifestField.lease_expires_at t ∷ fs) = ⊥
KeepsLease (f ∷ fs) = KeepsLease fs

update_fields-lease :
    (fs : List ManifestField) (m : BuildResources)
    → KeepsLease fs
    → ((update_manifest_fields fs m).lease_owner ≡ m.lease_owner)
      × ((update_manifest_fields fs m).lease_expires_at ≡ m.lease_expires_at)
unfolding update_manifest_fields
update_fields-lease [] m k = (refl, refl)
update_fields-lease (ManifestField.lease_expires_at t ∷ fs) m k = absurd k
update_fields-lease (ManifestField.cleanup_status _ ∷ fs) m k = update_fields-lease fs _ k
update_fields-lease (ManifestField.cleanup_generation _ ∷ fs) m k = update_fields-lease fs _ k
update_fields-lease (ManifestField.cleanup_requested_at _ ∷ fs) m k = update_fields-lease fs _ k
update_fields-lease (ManifestField.started_at _ ∷ fs) m k = update_fields-lease fs _ k
update_fields-lease (ManifestField.finished_at _ ∷ fs) m k = update_fields-lease fs _ k
update_fields-lease (ManifestField.last_error _ ∷ fs) m k = update_fields-lease fs _ k
update_fields-lease (ManifestField.registry_storage_status _ ∷ fs) m k = update_fields-lease fs _ k
update_fields-lease (ManifestField.jenkins_trigger_pending _ ∷ fs) m k = update_fields-lease fs _ k

world-continue :
    (r : Result (Option BuildResources)) {w : World} → (continue r (λ u. pure (is_some u)) w).1 ≡ w
unfolding ◌>>=◌
world-continue (ok u) = refl
world-continue (err e) = refl

first_of_all : {b : Bool} → (b && true) ≡ true → b ≡ true
first_of_all {b} h = ground arith

module _ (id holder : String) (expiry : ℕ) where
  abbrev Mine : World → Type 0
  Mine w = Held id holder expiry w.repository

  update_manifest-Held :
      (j : String) (fields : List ManifestField) (m : BuildResources) (b : Bool) (w : World)
      → KeepsLease fields ⊎ (j ≢ id)
      → Mine w
      → lookup j w.repository.build_resources ≡ some m
      → Mine (update_manifest j fields m b w).1
  unfolding ◌>>=◌
  update_manifest-Held j fields m true w allowed held found = held
  update_manifest-Held j fields m false w (inr ne) held found =
      store-Held id holder expiry j _ w.repository held (λ e. absurd (ne e))
  update_manifest-Held j fields m false w (inl keeps) held found =
      let (owner, ends) = update_fields-lease fields m keeps in
      store-Held id holder expiry j _ w.repository held (λ e.
        let (mine, until) = same_manifest id holder expiry j w.repository held found e in
        (owner ∙ mine, ends ∙ until))

  update_some-Held :
      (j : String) (fields : List ManifestField) (expected : List Expectation) (m : BuildResources)
      (w : World)
      → (all (meets m) expected ≡ true → KeepsLease fields ⊎ (j ≢ id))
      → Mine w
      → lookup j w.repository.build_resources ≡ some m
      → Mine (update_found j fields expected (some m) w).1
  unfolding ◌>>=◌
  update_some-Held j fields expected m w allowed held found =
      elim (Bool-cases (all (meets m) expected)) [
        | inr refused ↦ rw refused held
        | inl met ↦ rw met (elim (Bool-cases (expects_owner expected)) [
          | inl owned ↦ rw owned (
              update_manifest-Held j fields m _ (record w { ticks = w.ticks + 1 }) (allowed met)
                held found)
          | inr free ↦ rw free (update_manifest-Held j fields m false w (allowed met) held found)
        ])
      ]

  update-Held :
      (j : String) (fields : List ManifestField) (expected : List Expectation) (w : World)
      → ((m : BuildResources)
          → lookup j w.repository.build_resources ≡ some m
          → all (meets m) expected ≡ true
          → KeepsLease fields ⊎ (j ≢ id))
      → Mine w
      → Mine (update_build_resources j fields expected w).1
  unfolding update_build_resources ◌>>=◌
  update-Held j fields expected w allowed held =
      elim (Option-cases (lookup j w.repository.build_resources)) [
        | inl absent ↦ rw absent held
        | inr (m, found) ↦
            rw found (update_some-Held j fields expected m w (allowed m found) held found)
      ]

  renew-Held :
      (j owner : String) (expires_at : ℕ) (w : World)
      → owner ≢ holder
      → Mine w
      → Mine (renew_build_lease j owner expires_at w).1
  unfolding renew_build_lease ◌>>=◌
  renew-Held j owner expires_at w ne held =
      rw (world-continue (update_build_resources j _ (lease_owner_is owner ∷ []) w).0) (
        update-Held j _ (lease_owner_is owner ∷ []) w
          (λ m found met. inr (λ e. ne (
            one_owner ((option_eq.beq_iff m.lease_owner (some owner)).0 (first_of_all met))
              (same_manifest id holder expiry j w.repository held found e).0)))
          held)

  -- One locked call of a worker on the manifests, on any build.
  pub data Call : Type 0 where
    claim : String → String → ℕ → List CleanupStatus → Call
    renew : String → String → ℕ → Call
    release : String → String → Call
    put : String → BuildResource → Option String → Call
    update : String → List ManifestField → List Expectation → Call

  -- the calls that do not come from the holder; a plain update sets no lease
  abbrev pub ByOther : Call → Type 0
  ByOther (claim j owner e statuses) = Unit
  ByOther (renew j owner e) = owner ≢ holder
  ByOther (release j owner) = owner ≢ holder
  ByOther (put j resource owner) = Unit
  ByOther (update j fields expected) = KeepsLease fields

  unfoldable pub perform : Call → World → World
  perform (claim j owner e statuses) w = (claim_build_lease j owner e statuses w).1
  perform (renew j owner e) w = (renew_build_lease j owner e w).1
  perform (release j owner) w = (release_build_lease j owner w).1
  perform (put j resource owner) w = (put_build_resource j resource owner w).1
  perform (update j fields expected) w = (update_build_resources j fields expected w).1

  perform-Held :
      (c : Call) (w : World) → ByOther c → w.clock w.ticks < expiry → Mine w → Mine (perform c w)
  unfolding perform
  perform-Held (claim j owner e statuses) w other early held =
      claim-Held id holder expiry j owner e statuses w held early
  perform-Held (renew j owner e) w other early held = renew-Held j owner e w other held
  perform-Held (release j owner) w other early held =
      release-Held id holder expiry j owner w held other
  perform-Held (put j resource owner) w other early held =
      put-Held id holder expiry j resource owner w held
  perform-Held (update j fields expected) w other early held =
      update-Held j fields expected w (λ m found met. inl other) held

  -- Each call is by another, and starts before the lease ends.
  abbrev pub Early : List Call → World → Type 0
  Early [] w = Unit
  Early (c ∷ cs) w = ByOther c × (w.clock w.ticks < expiry) × Early cs (perform c w)

  unfoldable pub perform_all : List Call → World → World
  perform_all [] w = w
  perform_all (c ∷ cs) w = perform_all cs (perform c w)

  -- Whatever calls the other workers make before a lease ends, in any order and on any builds, with
  -- updates of their own that set no end of a lease: the holder still has the lease afterwards,
  -- with the end that it had.
  pub perform_all-Held :
      (cs : List Call) (w : World) → Early cs w → Mine w → Mine (perform_all cs w)
  unfolding perform_all
  perform_all-Held [] w early held = held
  perform_all-Held (c ∷ cs) w (other, now, early) held =
      perform_all-Held cs (perform c w) early (perform-Held c w other now held)

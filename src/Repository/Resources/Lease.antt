-- ===== src/Repository/Resources/Lease.antt =====
-- The lease on a manifest keeps the other owners out while it runs.
use docker_jenkins_orchestra.Prelude.{
  ℕ, ◌+◌, ◌<◌, String, ◌≡◌, sym, ap, ◌∙◌, ◌≢◌, inl, inr, Bool, true, false, Option, none, some,
  List, arith, eq_iff, if◌then◌else◌, ◌==◌, nat_eq, string_eq, Bool-cases, Option-cases, option_eq,
  pair_eq,
}
use docker_jenkins_orchestra.Prelude.Dict.{lookup, lookup-insert}
use docker_jenkins_orchestra.Models.Resources.{
  BuildResource, CleanupStatus, BuildResources, cleanup_status_eq,
}
use docker_jenkins_orchestra.Repository.State.{Repository}
use docker_jenkins_orchestra.Repository.Resources.{
  is_resource_key, put_found, put_resource, put_build_resource, release_build_lease, store_manifest,
  claim_found, claim_build_lease,
}
use docker_jenkins_orchestra.World.{World, ok, ◌>>=◌}

abbrev pub lease_view : Option BuildResources → Option (Option String × Option ℕ)
lease_view none = none
lease_view (some m) = some (m.lease_owner, m.lease_expires_at)

-- who holds the lease on a build, and until when
abbrev pub lease_of : String → Repository → Option (Option String × Option ℕ)
lease_of id r = lease_view (lookup id r.build_resources)

lease_of-store :
    (j id : String) (m : BuildResources) (r : Repository)
    → lease_of id (store_manifest j m r)
      ≡ (if j == id then some (m.lease_owner, m.lease_expires_at) else lease_of id r)
lease_of-store j id m r = rw lookup-insert (ground arith)

pub one_owner : {o : Option String} {a b : String} → o ≡ some a → o ≡ some b → a ≡ b
one_owner h k = cc

pub lease_of_found :
    (id : String) (r : Repository) {a : Option String} {e : Option ℕ}
    → lease_of id r ≡ some (a, e)
    → (m : BuildResources) × (lookup id r.build_resources ≡ some m)
      × (m.lease_owner ≡ a)
      × (m.lease_expires_at ≡ e)
lease_of_found id r h = elim (Option-cases (lookup id r.build_resources)) [
  | inl absent ↦ cc (ap lease_view absent, h)
  | inr (m, found) ↦ (m, found, cc (ap lease_view found, h), cc (ap lease_view found, h))
]

claim_found_held :
    (id owner : String) (expires_at : ℕ) (statuses : List CleanupStatus) (m : BuildResources)
    (w : World) {holder : String} {expiry : ℕ}
    → m.lease_owner ≡ some holder
    → m.lease_expires_at ≡ some expiry
    → w.clock w.ticks < expiry
    → ((claim_found id owner expires_at statuses (some m) w).0 ≡ ok none)
      × ((claim_found id owner expires_at statuses (some m) w).1.repository ≡ w.repository)
unfolding ◌>>=◌
claim_found_held id owner expires_at statuses m w owned ends early = ground arith

module _ (id holder : String) (expiry : ℕ) where
  -- A claim on a build whose lease still runs is refused and changes nothing.
  pub claim_refused_while_held :
      (owner : String) (expires_at : ℕ) (statuses : List CleanupStatus) (w : World)
      → lease_of id w.repository ≡ some (some holder, some expiry)
      → w.clock w.ticks < expiry
      → ((claim_build_lease id owner expires_at statuses w).0 ≡ ok none)
        × ((claim_build_lease id owner expires_at statuses w).1.repository ≡ w.repository)
  unfolding claim_build_lease ◌>>=◌
  claim_refused_while_held owner expires_at statuses w held early =
      let (m, found, owned, ends) = lease_of_found id w.repository held in
      rw found (claim_found_held id owner expires_at statuses m w owned ends early)

  abbrev pub Held : Repository → Type 0
  Held r = lease_of id r ≡ some (some holder, some expiry)

  -- a write about one build keeps the lease, if it does so on this build
  pub store-Held :
      (j : String) (m : BuildResources) (r : Repository)
      → Held r
      → (j ≡ id → (m.lease_owner ≡ some holder) × (m.lease_expires_at ≡ some expiry))
      → Held (store_manifest j m r)
  store-Held j m r held same = elim (Bool-cases (j == id)) [
    | inl here ↦
        let (owned, ends) = same ((eq_iff j id).0 here) in
        rw (lookup-insert, here) (cc (owned, ends))
    | inr other ↦ rw (lookup-insert, other) held
  ]

  pub same_manifest :
      (j : String) (r : Repository) {m : BuildResources}
      → Held r
      → lookup j r.build_resources ≡ some m
      → j ≡ id
      → (m.lease_owner ≡ some holder) × (m.lease_expires_at ≡ some expiry)
  same_manifest j r held found e =
      let found' = ap (λ k. lookup k r.build_resources) (sym e) ∙ found in
      (cc (ap lease_view found', held), cc (ap lease_view found', held))

  pub claim-Held :
      (j owner : String) (expires_at : ℕ) (statuses : List CleanupStatus) (w : World)
      → Held w.repository
      → w.clock w.ticks < expiry
      → Held (claim_build_lease j owner expires_at statuses w).1.repository
  unfolding claim_build_lease ◌>>=◌
  claim-Held j owner expires_at statuses w held early = elim (Bool-cases (j == id)) [
    | inl here ↦
        let e = (eq_iff j id).0 here in
        rw e (rw (claim_refused_while_held owner expires_at statuses w held early).1 held)
    | inr other ↦ elim (Option-cases (lookup j w.repository.build_resources)) [
      | inl absent ↦ rw absent held
      | inr (m, found) ↦ rw found (grind (arith, lookup-insert))
    ]
  ]

  pub release-Held :
      (j owner : String) (w : World)
      → Held w.repository
      → owner ≢ holder
      → Held (release_build_lease j owner w).1.repository
  unfolding release_build_lease ◌>>=◌
  release-Held j owner w held ne = elim (Option-cases (lookup j w.repository.build_resources)) [
    | inl absent ↦ rw absent held
    | inr (m, found) ↦ elim (Bool-cases (m.lease_owner == some owner)) [
      | inl own ↦ rw found (
          rw own (
            store-Held j _ w.repository held (λ e. absurd (
              ne (
                one_owner ((option_eq.beq_iff m.lease_owner (some owner)).0 own)
                  (same_manifest j w.repository held found e).0)))))
      | inr foreign ↦ rw found (rw foreign held)
    ]
  ]

  module _ (j : String) (m : BuildResources) where
    put_resource-Held :
        (resource : BuildResource) (b : Bool) (w : World)
        → Held w.repository
        → lookup j w.repository.build_resources ≡ some m
        → Held (put_resource j resource m b w).1.repository
    unfolding ◌>>=◌
    put_resource-Held resource true w held found = held
    put_resource-Held resource false w held found =
        store-Held j _ w.repository held (same_manifest j w.repository held found)

    put_found-Held :
        (resource : BuildResource) (owner : Option String) (w : World)
        → Held w.repository
        → lookup j w.repository.build_resources ≡ some m
        → Held (put_found j resource owner (some m) w).1.repository
    unfolding ◌>>=◌
    put_found-Held resource none w held found = put_resource-Held resource false w held found
    put_found-Held resource (some o) w held found = elim (Bool-cases (m.lease_owner == some o)) [
      | inl own ↦
          rw own (put_resource-Held resource _ (record w { ticks = w.ticks + 1 }) held found)
      | inr foreign ↦ rw foreign (put_resource-Held resource true w held found)
    ]

  pub put-Held :
      (j : String) (resource : BuildResource) (owner : Option String) (w : World)
      → Held w.repository
      → Held (put_build_resource j resource owner w).1.repository
  unfolding put_build_resource ◌>>=◌
  put-Held j resource owner w held = elim (Bool-cases (is_resource_key resource.key)) [
    | inr bad ↦ rw bad held
    | inl good ↦ rw good (elim (Option-cases (lookup j w.repository.build_resources)) [
      | inl absent ↦ rw absent held
      | inr (m, found) ↦ rw found (put_found-Held j m resource owner w held found)
    ])
  ]

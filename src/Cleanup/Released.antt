-- ===== src/Cleanup/Released.antt =====
-- The lease around an operation is released whatever the operation does.
use docker_jenkins_orchestra.Prelude.{
  ◌+◌, String, ◌≡◌, refl, sym, ◌∙◌, ◌≢◌, inl, inr, true, false, Option, none, some, List, ◌==◌,
  nat_eq, string_eq, Bool-cases, ==-refl, option_eq, pair_eq,
}
use docker_jenkins_orchestra.Prelude.Dict.{lookup, insert, lookup-insert}
use docker_jenkins_orchestra.Models.Resources.{BuildResources, CleanupStatus}
use docker_jenkins_orchestra.Repository.State.{Repository}
use docker_jenkins_orchestra.Repository.Resources.{claim_build_lease, release_build_lease, released}
use docker_jenkins_orchestra.Tracker.{ResourceTracker}
use docker_jenkins_orchestra.Cleanup.{finally, leased, lease_seconds, with_build_lease}
use docker_jenkins_orchestra.World.{Action, World, ok, ◌>>=◌}

-- No manifest of the build names the owner.
abbrev pub IsFree : String → String → Repository → Type 0
IsFree build_id owner r =
    (m : BuildResources) → lookup build_id r.build_resources ≡ some m → m.lease_owner ≢ some owner

ne-of_false :
    (known : Option String) (owner : String) → (known == some owner) ≡ false → known ≢ some owner
ne-of_false known owner h e =
    let bad : true ≡ false = sym ((option_eq.beq_iff known (some owner)).1 e) ∙ h in cc bad

by_manifest :
    (build_id owner : String) (r : Repository) (o : Option BuildResources)
    → lookup build_id r.build_resources ≡ o
    → IsFree build_id owner (released build_id owner o r)
by_manifest build_id owner r none absent m h = let bad : none ≡ some m = sym absent ∙ h in cc bad
by_manifest build_id owner r (some held) stored m h =
    elim (Bool-cases (held.lease_owner == some owner)) [
      | inl mine ↦
          let free = record held { lease_owner = none; lease_expires_at = none } in
          let h' : lookup build_id (insert build_id free r.build_resources) ≡ some m =
            rw mine at h in
          let found : lookup build_id (insert build_id free r.build_resources) ≡ some free =
            rw lookup-insert (rw (==-refl build_id) refl) in
          let same : some free ≡ some m = sym found ∙ h' in
          let unheld : none ≡ m.lease_owner = cc same in
          λ e. let bad : none ≡ some owner = unheld ∙ e in cc bad
      | inr other ↦
          let h' : lookup build_id r.build_resources ≡ some m = rw other at h in
          let same : some held ≡ some m = sym stored ∙ h' in
          let same_owner : held.lease_owner ≡ m.lease_owner = cc same in
          λ e. ne-of_false held.lease_owner owner other (same_owner ∙ e)
    ]

leased-IsFree {ℓ} :
    {A : Type ℓ} (build_id owner : String) (body : Option ResourceTracker → Action A)
    (m : BuildResources) (w : World)
    → IsFree build_id owner (leased build_id owner body (some m) w).1.repository
unfolding finally release_build_lease ◌>>=◌
leased-IsFree build_id owner body m w =
    let after = (body (some (record { build_id = build_id; owner = some owner })) w).1 in
    by_manifest build_id owner after.repository (lookup build_id after.repository.build_resources)
      refl

-- When the lease of a build is granted to an operation, under the next identifier: then the
-- outcome is what the operation gives or raises with that lease, and afterwards no manifest of the
-- build names that owner, whatever the operation did.
pub with_build_lease_releases {ℓ} :
    {A : Type ℓ} (build_id : String) (statuses : List CleanupStatus)
    (body : Option ResourceTracker → Action A) (w v : World) (m : BuildResources)
    → let owner = w.uuids w.drawn in
      let drawn = record w { drawn = w.drawn + 1; ticks = w.ticks + 1 } in
      claim_build_lease build_id owner (w.clock w.ticks + lease_seconds) statuses drawn
        ≡ (ok (some m), v)
      → let after = with_build_lease build_id statuses body w in
        (after.0 ≡ (body (some (record { build_id = build_id; owner = some owner })) v).0)
        × IsFree build_id owner after.1.repository
unfolding with_build_lease finally ◌>>=◌
with_build_lease_releases build_id statuses body w v m granted =
    rw granted (refl, leased-IsFree build_id (w.uuids w.drawn) body m v)

-- ===== src/Teardown/Settled.antt =====
-- What a teardown leaves on the build, and when it counts as done.
use docker_jenkins_orchestra.Prelude.{
  String, ◌≡◌, refl, sym, ap, ◌∙◌, ◌↔◌, inl, inr, false, not, ◌&&◌, Option, none, some, arith,
  nat_eq, string_eq, Bool-cases, Option-cases, is_some, ==-refl, option_eq, pair_eq,
}
use docker_jenkins_orchestra.Prelude.Dict.{lookup, lookup-insert}
use docker_jenkins_orchestra.Models.Build.{BuildJob, TeardownStatus}
use docker_jenkins_orchestra.Models.Resources.{BuildResources, CleanupStatus}
use docker_jenkins_orchestra.Repository.State.{Repository}
use docker_jenkins_orchestra.Repository.Builds
use docker_jenkins_orchestra.Repository.Builds.{BuildField, update_build_fields}
use docker_jenkins_orchestra.Cleanup.{Jenkins}
use docker_jenkins_orchestra.Cleanup.Run.{observe}
use docker_jenkins_orchestra.Services.Build.{
  get_build, get_build-bind_missing, get_build-bind_found,
}
use docker_jenkins_orchestra.Teardown.{
  teardown_status_of, is_torn_down, update_now, record_teardown, sync_from, sync_teardown,
  after_cleanup, teardown_from, clean_up, teardown,
}
use docker_jenkins_orchestra.World.{Action, World, Result, ok, err, Error, ◌>>=◌}

-- The answer `s`, and what the repository then says of the build and of its manifest.
abbrev Settled : String → TeardownStatus → World → Type 0
Settled build_id s w =
    ((b : BuildJob)
      → lookup build_id w.repository.builds ≡ some b
      → (b.teardown_status ≡ some s) × (b.teardown_required ≡ false ↔ s ≡ TeardownStatus.succeeded))
    × (s ≡ TeardownStatus.succeeded
        → (m : BuildResources) × (lookup build_id w.repository.build_resources ≡ some m)
          × (m.cleanup_status ≡ CleanupStatus.succeeded))

required_iff :
    (s : TeardownStatus) → (not (is_torn_down s) ≡ false) ↔ (s ≡ TeardownStatus.succeeded)
required_iff s = (λ h. ground arith, λ h. ground arith)

torn_down_manifest :
    (o : Option BuildResources)
    → teardown_status_of o ≡ TeardownStatus.succeeded
    → (m : BuildResources) × (o ≡ some m) × (m.cleanup_status ≡ CleanupStatus.succeeded)
torn_down_manifest none h = cc h
torn_down_manifest (some m) h = (m, refl, ground arith)

module _ (build_id : String) where
  record_teardown-builds :
      (s : TeardownStatus) (w : World)
      → let after = (record_teardown build_id s w).1 in
        (b : BuildJob)
        → lookup build_id after.repository.builds ≡ some b
        → (b.teardown_status ≡ some s) × (b.teardown_required ≡ not (is_torn_down s))
  unfolding record_teardown update_now Builds.update_build update_build_fields ◌>>=◌
  record_teardown-builds s w b h = elim (Option-cases (lookup build_id w.repository.builds)) [
    | inl absent ↦
        let bad : none ≡ some b = sym absent ∙ (rw (absent, Builds.update_build) at h) in cc bad
    | inr (old, found) ↦
        let stored =
          rw (==-refl build_id) at (rw lookup-insert at (rw (found, Builds.update_build) at h)) in
        (cc stored, cc stored)
  ]

  record_teardown-manifests :
      (s : TeardownStatus) (w : World)
      → (record_teardown build_id s w).1.repository.build_resources ≡ w.repository.build_resources
  unfolding record_teardown update_now Builds.update_build ◌>>=◌
  record_teardown-manifests s w = elim (Option-cases (lookup build_id w.repository.builds)) [
    | inl absent ↦ rw (absent, Builds.update_build)
    | inr (old, found) ↦ rw (found, Builds.update_build)
  ]

  record_teardown-answer :
      (s t : TeardownStatus) (w : World) → (record_teardown build_id s w).0 ≡ ok (some t) → s ≡ t
  unfolding record_teardown update_now ◌>>=◌
  record_teardown-answer s t w h = cc h

  record_teardown-Settled :
      (s t : TeardownStatus) (w : World)
      → (record_teardown build_id s w).0 ≡ ok (some t)
      → (s ≡ TeardownStatus.succeeded
          → teardown_status_of (lookup build_id w.repository.build_resources)
            ≡ TeardownStatus.succeeded)
      → Settled build_id t (record_teardown build_id s w).1
  record_teardown-Settled s t w h done =
      let same = record_teardown-answer s t w h in
      (
        λ b found.
            let (status, required) = record_teardown-builds s w b found in
            (
              status ∙ ap some same,
              (
                λ free. sym same ∙ (required_iff s).0 (sym required ∙ free),
                λ e. required ∙ (required_iff s).1 (same ∙ e),
              ),
            ),
        λ e.
            let (m, stored, cleaned) =
              torn_down_manifest (lookup build_id w.repository.build_resources) (done (same ∙ e)) in
            (m, ap (lookup build_id) (record_teardown-manifests s w) ∙ stored, cleaned),
      )

  sync_from-Settled :
      (b : BuildJob) (t : TeardownStatus) (w : World)
      → (sync_from build_id b w).0 ≡ ok (some t)
      → Settled build_id t (sync_from build_id b w).1
  unfolding sync_from ◌>>=◌
  sync_from-Settled b t w h =
      elim (Bool-cases (not b.teardown_required && not (is_some b.teardown_status))) [
        | inl unneeded ↦ let bad : ok none ≡ ok (some t) = rw unneeded at h in cc bad
        | inr needed ↦ rw needed (
            record_teardown-Settled
              (teardown_status_of (lookup build_id w.repository.build_resources)) t w
              (rw needed at h) (λ e. e))
      ]

  -- what holds of every end of the rest of a method holds of the method that reads the build first
  get_build-Settled :
      (f : BuildJob → Action (Option TeardownStatus)) (t : TeardownStatus) (w : World)
      → ((b : BuildJob) → (f b w).0 ≡ ok (some t) → Settled build_id t (f b w).1)
      → ((get_build build_id >>= f) w).0 ≡ ok (some t)
      → Settled build_id t ((get_build build_id >>= f) w).1
  get_build-Settled f t w rest h = elim (Option-cases (lookup build_id w.repository.builds)) [
    | inl absent ↦
        let bad : err (Error.not_found "Build not found") ≡ ok (some t) =
          rw (get_build-bind_missing build_id f w absent) at h in
        cc bad
    | inr (b, found) ↦
        let read = get_build-bind_found build_id f w b found in rw read (rest b (rw read at h))
  ]

  sync_teardown-Settled :
      (t : TeardownStatus) (w : World)
      → (sync_teardown build_id w).0 ≡ ok (some t)
      → Settled build_id t (sync_teardown build_id w).1
  unfolding sync_teardown
  sync_teardown-Settled t w h =
      get_build-Settled (sync_from build_id) t w (λ b k. sync_from-Settled b t w k) h

  after_cleanup-Settled :
      (outcome : Result (Unit {0})) (t : TeardownStatus) (w : World)
      → (after_cleanup build_id outcome w).0 ≡ ok (some t)
      → Settled build_id t (after_cleanup build_id outcome w).1
  after_cleanup-Settled (ok u) t w h = sync_teardown-Settled t w h
  after_cleanup-Settled (err e) t w h =
      record_teardown-Settled TeardownStatus.partial_failed t w h (λ bad. cc bad)

module _ (legacy : BuildJob → Repository → BuildResources) (jenkins : Option Jenkins)
    (cleanup : String → Action (Unit {0})) where
  teardown_from-Settled :
      (build_id : String) (b : BuildJob) (s : TeardownStatus) (w : World)
      → (teardown_from legacy jenkins cleanup build_id b w).0 ≡ ok (some s)
      → Settled build_id s (teardown_from legacy jenkins cleanup build_id b w).1
  unfolding teardown_from observe ◌>>=◌
  teardown_from-Settled build_id b s w h = elim (Bool-cases b.teardown_required) [
    | inl required ↦
        let cleaned = clean_up legacy jenkins cleanup build_id w in
        rw required (after_cleanup-Settled build_id cleaned.0 s cleaned.1 (rw required at h))
    | inr over ↦ rw over (sync_teardown-Settled build_id s w (rw over at h))
  ]

  -- When a teardown answers with a status of its own, whatever the cleanup that it calls does, and
  -- the build is still stored afterwards: the build has this status, and needs no more teardown
  -- exactly if the status is that it succeeded; and then a manifest of the build is stored whose
  -- cleanup has succeeded.
  pub teardown_settles :
      (build_id : String) (s : TeardownStatus) (w : World) (b : BuildJob)
      → let after = teardown legacy jenkins cleanup build_id w in
        after.0 ≡ ok (some s)
        → lookup build_id after.1.repository.builds ≡ some b
        → (b.teardown_status ≡ some s)
          × (b.teardown_required ≡ false ↔ s ≡ TeardownStatus.succeeded)
          × (s ≡ TeardownStatus.succeeded
              → (m : BuildResources) × (lookup build_id after.1.repository.build_resources ≡ some m)
                × (m.cleanup_status ≡ CleanupStatus.succeeded))
  unfolding teardown
  teardown_settles build_id s w b h stored =
      let (builds, cleaned) =
        get_build-Settled build_id (teardown_from legacy jenkins cleanup build_id) s w
          (λ c k. teardown_from-Settled build_id c s w k) h in
      let (status, required) = builds b stored in (status, required, cleaned)

-- ===== src/Cleanup/Run/Sound.antt =====
-- `BuildCleanupRunner.run`: the result that is saved, and what it says of the manifest.
use std.Path.{subst}
use docker_jenkins_orchestra.Prelude.{
  ℕ, ◌+◌, String, ◌≡◌, refl, sym, ap, ◌∙◌, inl, inr, Bool, true, false, ◌&&◌, Option, none, some,
  List, [], ◌∷◌, ◌==◌, nat_eq, string_eq, Bool-cases, is_some, option_eq, pair_eq,
}
use docker_jenkins_orchestra.Prelude.Dict.{lookup, values}
use docker_jenkins_orchestra.Models.Resources.{
  BuildResource, BuildResources, CleanupStatus, cleanup_status_eq,
}
use docker_jenkins_orchestra.Repository.State.{Repository}
use docker_jenkins_orchestra.Repository.Resources.{
  ManifestField, Expectation, update_build_resources, update_manifest_fields, lease_expired,
}
use docker_jenkins_orchestra.Repository.Resources.Granted.{update-Granted}
use docker_jenkins_orchestra.Tracker.{
  ResourceTracker, or_no_manifest, guard, guard_manifest, raise_if_lost,
}
use docker_jenkins_orchestra.Cleanup.Run.{observe, Cleaners, Progress, stored_manifest}
use docker_jenkins_orchestra.Cleanup.Run.Finish.{
  not_removed, verdict, saved_or_lost, save_result, collected, discover_if_owned, clean_kinds,
  cleanup_order, verify_empty, clean_build,
}
use docker_jenkins_orchestra.World.{World, ok, utc_now, ◌>>=◌, >>=-ok, pure-ok, raise-ok}

verdict-succeeded :
    (left : List BuildResource) (errors : List String)
    → (verdict left errors).0 ≡ CleanupStatus.succeeded
    → (left ≡ []) × (errors ≡ [])
verdict-succeeded [] [] h = (refl, refl)
verdict-succeeded [] (e ∷ es) h = cc h
verdict-succeeded (r ∷ rs) [] h = cc h
verdict-succeeded (r ∷ rs) (e ∷ es) h = cc h

pub stored_manifest-ok :
    (build_id : String) (m : BuildResources) (w : World)
    → (stored_manifest build_id w).0 ≡ ok m
    → (lookup build_id w.repository.build_resources ≡ some m) × ((stored_manifest build_id w).1 ≡ w)
unfolding ◌>>=◌
stored_manifest-ok build_id m w h = by_lookup (lookup build_id w.repository.build_resources) h
  where
    by_lookup :
        (o : Option BuildResources)
        → (or_no_manifest o w).0 ≡ ok m
        → (o ≡ some m) × ((or_no_manifest o w).1 ≡ w)
    by_lookup none k = cc k
    by_lookup (some held) k = (cc k, refl)

raise-kept : (lost : Bool) (w : World) → (raise_if_lost lost w).1.repository ≡ w.repository
unfolding ◌>>=◌
raise-kept true w = refl
raise-kept false w = refl

-- Looking at the lease reads the clock at most.
guard_manifest-kept :
    (owner : Option String) (o : Option BuildResources) (w : World)
    → (guard_manifest owner o w).1.repository ≡ w.repository
unfolding ◌>>=◌
guard_manifest-kept owner none w = refl
guard_manifest-kept none (some m) w = refl
guard_manifest-kept (some owner) (some m) w =
    elim (Bool-cases (m.lease_owner == some owner && is_some m.lease_expires_at)) [
      | inl mine ↦ rw mine (
          raise-kept (lease_expired m.lease_expires_at (w.clock w.ticks))
            (record w { ticks = w.ticks + 1 }))
      | inr other ↦ rw other refl
    ]

guard-kept : (tracker : ResourceTracker) (w : World) → (guard tracker w).1.repository ≡ w.repository
unfolding guard ◌>>=◌
guard-kept tracker w =
    guard_manifest-kept tracker.owner (lookup tracker.build_id w.repository.build_resources) w

clock-kept : (w : World) → (utc_now w).1.repository ≡ w.repository
unfolding ◌>>=◌
clock-kept w = refl

saved_or_lost-ok :
    (status s : CleanupStatus) (o : Option BuildResources) (w : World)
    → (saved_or_lost status o w).0 ≡ ok s
    → ((u : BuildResources) × (o ≡ some u)) × (status ≡ s) × ((saved_or_lost status o w).1 ≡ w)
unfolding ◌>>=◌
saved_or_lost-ok status s none w h = absurd (raise-ok _ s w h)
saved_or_lost-ok status s (some u) w h = ((u, refl), pure-ok status s w h, refl)

-- the fields of a result
abbrev result_fields : CleanupStatus → Option String → String → ℕ → List ManifestField
result_fields status last_error storage now =
    ManifestField.cleanup_status status
    ∷ ManifestField.finished_at (some now)
    ∷ ManifestField.last_error last_error
    ∷ ManifestField.registry_storage_status storage
    ∷ []

result-fields :
    (status : CleanupStatus) (last_error : Option String) (storage : String) (now stamp : ℕ)
    (m u : BuildResources)
    → u ≡ record (update_manifest_fields (result_fields status last_error storage now) m) {
      updated_at = stamp;
    }
    → (u.cleanup_status ≡ status) × (u.resources ≡ m.resources)
unfolding update_manifest_fields
result-fields status last_error storage now stamp m u made = (
  ap (λ (v : BuildResources). v.cleanup_status) made,
  ap (λ (v : BuildResources). v.resources) made,
)

-- what a cleanup that succeeds leaves stored
abbrev pub Cleaned : String → World → Type 0
Cleaned build_id v =
    (u : BuildResources) × (lookup build_id v.repository.build_resources ≡ some u)
    × (u.cleanup_status ≡ CleanupStatus.succeeded)
    × (not_removed (values u.resources) ≡ [])

saved-Cleaned :
    (build_id : String) (status : CleanupStatus) (last_error : Option String) (storage : String)
    (now : ℕ) (expected : List Expectation) (current : BuildResources) (w : World)
    → lookup build_id w.repository.build_resources ≡ some current
    → (status ≡ CleanupStatus.succeeded → not_removed (values current.resources) ≡ [])
    → ((update_build_resources build_id (result_fields status last_error storage now) expected
          >>= saved_or_lost status)
        w).0
      ≡ ok CleanupStatus.succeeded
    → (status ≡ CleanupStatus.succeeded)
      × Cleaned build_id
          ((update_build_resources build_id (result_fields status last_error storage now) expected
              >>= saved_or_lost status)
            w).1
saved-Cleaned build_id status last_error storage now expected current w held clean h =
    let (o, updated, h1, ends) =
      >>=-ok
        (update_build_resources build_id (result_fields status last_error storage now) expected)
        (saved_or_lost status) w h in
    let ((u, is_u), succeeded, kept) = saved_or_lost-ok status CleanupStatus.succeeded o _ h1 in
    let (m, found, granted) = update-Granted build_id _ expected u w (updated ∙ ap ok is_u) in
    let (stamp, made, stored) = granted in
    let (new_status, same) = result-fields status last_error storage now stamp m u made in
    let m_is_current : m ≡ current = cc (found, held) in
    (
      succeeded,
      subst (Cleaned build_id) (sym (ap (λ v. v.1) ends ∙ kept)) (
        u,
        stored,
        new_status ∙ succeeded,
        ap (λ rs. not_removed (values rs))
              (same ∙ ap (λ (v : BuildResources). v.resources) m_is_current)
            ∙ clean succeeded,
      ),
    )

-- When a cleanup ends as succeeded, there was no error, and the manifest that is stored says
-- succeeded and has only resources that are removed.
pub save_result_lem :
    (tracker : ResourceTracker) (p : Progress) (w : World)
    → (save_result tracker p w).0 ≡ ok CleanupStatus.succeeded
    → (p.errors ≡ []) × Cleaned tracker.build_id (save_result tracker p w).1
unfolding save_result
save_result_lem tracker p w h =
    let (current, read, h1, s1) = >>=-ok (stored_manifest tracker.build_id) _ w h in
    let (held, same) = stored_manifest-ok tracker.build_id current w read in
    let (_, _, h2, s2) = >>=-ok (guard tracker) _ _ h1 in
    let (now, _, h3, s3) = >>=-ok utc_now _ _ h2 in
    let left = not_removed (values current.resources) in
    let kept : lookup tracker.build_id _ ≡ some current =
      ap (λ (r : Repository). lookup tracker.build_id r.build_resources)
        (clock-kept _ ∙ guard-kept tracker _ ∙ ap (λ (v : World). v.repository) same)
      ∙ held in
    let (succeeded, cleaned) =
      saved-Cleaned tracker.build_id (verdict left p.errors).0 (verdict left p.errors).1 _ now _
        current _ kept (λ e. (verdict-succeeded left p.errors e).0) h3 in
    (
      (verdict-succeeded left p.errors succeeded).1,
      subst (λ v. Cleaned tracker.build_id v.1) (sym (s1 ∙ s2 ∙ s3)) cleaned,
    )

-- When the cleanup of a build, up to the saving of its result, ends as succeeded, then the manifest
-- of the build that is stored says succeeded and has only resources that are removed.
pub clean_build_lem :
    (cleaners : Cleaners) (m : BuildResources) (tracker : ResourceTracker) (w : World)
    → (clean_build cleaners m tracker w).0 ≡ ok CleanupStatus.succeeded
    → Cleaned tracker.build_id (clean_build cleaners m tracker w).1
unfolding clean_build
clean_build_lem cleaners m tracker w h =
    let (_, _, h1, s1) = >>=-ok (observe (cleaners.collect_builder_resources m tracker)) _ w h in
    let (_, _, h2, s2) = >>=-ok (collected cleaners tracker _ _) _ _ h1 in
    let (q, _, h3, s3) = >>=-ok (discover_if_owned cleaners tracker _ m.ownership_version) _ _ h2 in
    let (cleaned, _, h4, s4) = >>=-ok (clean_kinds cleaners tracker q cleanup_order) _ _ h3 in
    let (checked, _, h5, s5) = >>=-ok (verify_empty tracker cleaned cleaned.docker) _ _ h4 in
    subst (λ v. Cleaned tracker.build_id v.1) (sym (s1 ∙ s2 ∙ s3 ∙ s4 ∙ s5))
      (save_result_lem tracker checked _ h5).1

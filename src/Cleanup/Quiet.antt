-- ===== src/Cleanup/Quiet.antt =====
-- The actions of a cleanup that send no message.
use docker_jenkins_orchestra.Prelude.{
  ℕ, String, ◌≡◌, refl, sym, ap, ◌∙◌, ◌≢◌, Option, none, some, List, arith, nat_eq, string_eq,
  option_eq, pair_eq,
}
use docker_jenkins_orchestra.Models.Build.{BuildJob}
use docker_jenkins_orchestra.Models.Resources.{BuildResources, CleanupStatus}
use docker_jenkins_orchestra.Repository.State.{Repository}
use docker_jenkins_orchestra.Repository.Resources.{
  ManifestField, Expectation, ensure_build_resources, update_build_resources, claim_build_lease,
  release_build_lease,
}
use docker_jenkins_orchestra.Tracker.{ResourceTracker}
use docker_jenkins_orchestra.Cleanup.{finally, leased, with_build_lease, manifest}
use docker_jenkins_orchestra.World.{
  Action, World, Result, ok, err, Error, pure, raise, lift, get_repository, utc_now, uuid4,
  continue, ◌>>=◌,
}

-- An action that leaves the messages as they are, whatever it returns or raises.
pub record IsQuiet {ℓ} {A : Type ℓ} (m : Action A) : Type ℓ where
  pub same : (w : World) → (m w).1.dispatched ≡ w.dispatched

module _ {ℓ} {A : Type ℓ} where
  pub pure-IsQuiet : (a : A) → IsQuiet (pure a)
  unfolding ◌>>=◌
  pure-IsQuiet a = record { same = λ w. refl }

  pub raise-IsQuiet : (e : Error) → IsQuiet (raise {A = A} e)
  unfolding ◌>>=◌
  raise-IsQuiet e = record { same = λ w. refl }

  pub lift-IsQuiet : (r : Result A) → IsQuiet (lift r)
  unfolding ◌>>=◌
  lift-IsQuiet r = record { same = λ w. refl }

pub get_repository-IsQuiet : IsQuiet get_repository
unfolding ◌>>=◌
get_repository-IsQuiet = record { same = λ w. refl }

pub utc_now-IsQuiet : IsQuiet utc_now
unfolding ◌>>=◌
utc_now-IsQuiet = record { same = λ w. refl }

pub uuid4-IsQuiet : IsQuiet uuid4
unfolding ◌>>=◌
uuid4-IsQuiet = record { same = λ w. refl }

module _ {ℓ κ} {A : Type ℓ} {B : Type κ} where
  pub >>=-IsQuiet :
      {m : Action A} {f : A → Action B} → IsQuiet m → ((a : A) → IsQuiet (f a)) → IsQuiet (m >>= f)
  unfolding ◌>>=◌
  >>=-IsQuiet {m} {f} qm qf = record { same = λ w. by_result (m w) ∙ qm.same w }
    where
      by_result : (p : Result A × World) → (continue p.0 f p.1).1.dispatched ≡ p.1.dispatched
      by_result (ok a, v) = (qf a).same v
      by_result (err e, v) = refl

  -- A sequence that sends has got through its first action, if that sends nothing.
  pub sends_after :
      (m : Action A) (f : A → Action B) (w : World)
      → IsQuiet m
      → ((m >>= f) w).1.dispatched ≢ w.dispatched
      → (a : A) × (v : World) × (m w ≡ (ok a, v))
        × ((m >>= f) w ≡ f a v)
        × (v.dispatched ≡ w.dispatched)
        × ((f a v).1.dispatched ≢ v.dispatched)
  unfolding ◌>>=◌
  sends_after m f w quiet sends = by_result (m w) refl
    where
      by_result :
          (p : Result A × World)
          → m w ≡ p
          → (a : A) × (v : World) × (m w ≡ (ok a, v))
            × (continue (m w).0 f (m w).1 ≡ f a v)
            × (v.dispatched ≡ w.dispatched)
            × ((f a v).1.dispatched ≢ v.dispatched)
      by_result (ok a, v) e =
          let same : v.dispatched ≡ w.dispatched =
            ap (λ p. p.1.dispatched) (sym e) ∙ quiet.same w in
          let runs : continue (m w).0 f (m w).1 ≡ f a v =
            ap (λ (p : Result A × World). continue p.0 f p.1) e in
          (
            a,
            v,
            e,
            runs,
            same,
            λ h. sends (ap (λ (p : Result B × World). p.1.dispatched) runs ∙ h ∙ same),
          )
      by_result (err x, v) e =
          let runs : continue (m w).0 f (m w).1 ≡ (err x, v) =
            ap (λ (p : Result A × World). continue p.0 f p.1) e in
          absurd (
            sends (
              ap (λ (p : Result B × World). p.1.dispatched) runs
              ∙ ap (λ (p : Result A × World). p.1.dispatched) (sym e)
              ∙ quiet.same w))

pub update_build_resources-IsQuiet :
    (build_id : String) (fields : List ManifestField) (expected : List Expectation)
    → IsQuiet (update_build_resources build_id fields expected)
unfolding update_build_resources ◌>>=◌
update_build_resources-IsQuiet build_id fields expected = record { same = λ w. ground arith }

claim_build_lease-IsQuiet :
    (build_id owner : String) (expires_at : ℕ) (statuses : List CleanupStatus)
    → IsQuiet (claim_build_lease build_id owner expires_at statuses)
unfolding claim_build_lease ◌>>=◌
claim_build_lease-IsQuiet build_id owner expires_at statuses = record { same = λ w. ground arith }

release_build_lease-IsQuiet :
    (build_id owner : String) → IsQuiet (release_build_lease build_id owner)
unfolding release_build_lease ◌>>=◌
release_build_lease-IsQuiet build_id owner = record { same = λ w. refl }

pub manifest-IsQuiet :
    (legacy : BuildJob → Repository → BuildResources) (build_id : String)
    → IsQuiet (manifest legacy build_id)
unfolding manifest ensure_build_resources ◌>>=◌
manifest-IsQuiet legacy build_id = record { same = λ w. ground arith }

leased-IsQuiet {ℓ} :
    {A : Type ℓ} (build_id owner : String) (body : Option ResourceTracker → Action A)
    (m : Option BuildResources)
    → ((t : Option ResourceTracker) → IsQuiet (body t))
    → IsQuiet (leased build_id owner body m)
unfolding finally
leased-IsQuiet build_id owner body none quiet = quiet none
leased-IsQuiet build_id owner body (some m) quiet = record {
  same = λ w.
      (release_build_lease-IsQuiet build_id owner).same _
      ∙ (quiet (some (record { build_id = build_id; owner = some owner }))).same w;
}

pub with_build_lease-IsQuiet {ℓ} :
    {A : Type ℓ} (build_id : String) (statuses : List CleanupStatus)
    (body : Option ResourceTracker → Action A)
    → ((t : Option ResourceTracker) → IsQuiet (body t))
    → IsQuiet (with_build_lease build_id statuses body)
unfolding with_build_lease
with_build_lease-IsQuiet build_id statuses body quiet = >>=-IsQuiet uuid4-IsQuiet λ owner.
    >>=-IsQuiet utc_now-IsQuiet λ now.
      >>=-IsQuiet (claim_build_lease-IsQuiet build_id owner _ statuses)
        λ m. leased-IsQuiet build_id owner body m quiet

-- ===== src/Cleanup.antt =====
-- `build_lease` and `BuildResourceService` of orchestrator/build_resources.py: the lease around an
-- operation on the resources of a build, and the request to clean them up.
pub mod Request
pub mod Released
pub mod Quiet
pub mod Ended
pub mod Gated
pub mod Run
use docker_jenkins_orchestra.Prelude.{
  ℕ, zero, suc, ◌+◌, ◌-◌, ◌*◌, ◌/◌, ◌%◌, ◌^◌, ◌≤◌, ◌<◌, String, ◌≡◌, refl, sym, ap, ◌∙◌, ◌≢◌, ◌↔◌,
  ◌⊎◌, inl, inr, Bool, true, false, not, ◌&&◌, ◌||◌, Option, none, some, List, [], ◌∷◌, ◌++◌, map,
  arith, eq_iff, ltb, leb, nat_beq, if◌then◌else◌, nat_beq_iff, leb_iff, ltb_iff, Eq, ◌==◌, nat_eq,
  string_eq, concat, Bool-cases, Option-cases, is_some, ==-refl, option_eq, pair_eq, length, take,
  drop, all, any, length-append, length-take, length-drop, All, All-append,
}
use docker_jenkins_orchestra.Prelude.Dict.{lookup}
use docker_jenkins_orchestra.Models.Build.{BuildJob, is_terminal}
use docker_jenkins_orchestra.Models.Resources.{BuildResources, CleanupStatus}
use docker_jenkins_orchestra.Repository.State.{Repository}
use docker_jenkins_orchestra.Repository.Resources.{
  ensure_build_resources, claim_build_lease, release_build_lease,
}
use docker_jenkins_orchestra.Tracker.{ResourceTracker}
use docker_jenkins_orchestra.World.{
  Action, World, Result, ok, err, Error, pure, raise, lift, get_repository, utc_now, uuid4, ◌>>=◌,
  ◌>>◌,
}

-- `try: m finally: end`, where `end` does not raise
unfoldable pub finally {ℓ} : {A : Type ℓ} → Action A → Action (Unit {0}) → Action A
finally m end w = ((m w).0, (end (m w).1).1)

abbrev pub lease_seconds : ℕ
lease_seconds = 120

abbrev pub leased {ℓ} :
    {A : Type ℓ}
    → String
    → String
    → (Option ResourceTracker → Action A)
    → Option BuildResources
    → Action A
leased build_id owner body none = body none
leased build_id owner body (some m) =
    finally (body (some (record { build_id = build_id; owner = some owner })))
      (release_build_lease build_id owner)

-- `with build_lease(repository, build_id, statuses) as tracker: body`; the heartbeat is among the
-- calls of the other workers
unfoldable pub with_build_lease {ℓ} :
    {A : Type ℓ} → String → List CleanupStatus → (Option ResourceTracker → Action A) → Action A
with_build_lease build_id statuses body = do
  owner ← uuid4
  now ← utc_now
  m ← claim_build_lease build_id owner (now + lease_seconds) statuses
  leased build_id owner body m

-- What Jenkins answers: whether a build has ended, and the build number of a queue item with
-- whether it was cancelled.
pub record Jenkins : Type 0 where
  pub is_build_terminal : ℕ → Result Bool
  pub queue_item : String → Result (Option ℕ × Bool)

abbrev pub conflict_if : Bool → String → Action (Unit {0})
conflict_if true message = raise (Error.resource_conflict message)
conflict_if false message = pure tt

abbrev pub build_or_missing : Option BuildJob → Action BuildJob
build_or_missing none = raise (Error.not_found "Build not found")
build_or_missing (some build) = pure build

-- `value` of a text that may be missing, as a truth value
abbrev pub has_text : Option String → Bool
has_text none = false
has_text (some s) = not (s == "")

abbrev pub trigger_pending : Option BuildResources → Bool
trigger_pending none = false
trigger_pending (some m) = m.jenkins_trigger_pending

abbrev pub assert_build_ended : Jenkins → ℕ → Action (Unit {0})
assert_build_ended jenkins number = do
  terminal ← lift (jenkins.is_build_terminal number)
  conflict_if (not terminal) "Jenkins execution has not finished"

abbrev pub assert_item_ended : Jenkins → Option ℕ × Bool → Action (Unit {0})
assert_item_ended jenkins (some number, cancelled) = assert_build_ended jenkins number
assert_item_ended jenkins (none, cancelled) =
    conflict_if (not cancelled) "Jenkins queue item has not finished"

abbrev pub assert_item : Jenkins → Option String → Action (Unit {0})
assert_item jenkins none = pure tt
assert_item jenkins (some url) = do
  item ← lift (jenkins.queue_item url)
  assert_item_ended jenkins item

-- `jenkins` is `none` where no factory is configured
abbrev pub assert_execution : Option Jenkins → Option String → Option ℕ → Action (Unit {0})
assert_execution none url number =
    conflict_if (has_text url || is_some number) "Jenkins execution state cannot be verified"
assert_execution (some jenkins) url (some number) = assert_build_ended jenkins number
assert_execution (some jenkins) url none = if has_text url then assert_item jenkins url else pure tt

unfoldable pub assert_quiescent : Option Jenkins → String → Action (Unit {0})
assert_quiescent jenkins build_id = do
  r ← get_repository
  build ← build_or_missing (lookup build_id r.builds)
  conflict_if (not (is_terminal build.status)) "Build is still queued, building or deploying"
  conflict_if
      (trigger_pending (lookup build_id r.build_resources)
        && not (has_text build.jenkins_queue_url))
      "Jenkins trigger outcome is unknown; external execution must be verified"
  assert_execution jenkins build.jenkins_queue_url build.jenkins_build_number

-- `legacy` makes up the manifest of a build of an older version, from the build and the repository.
module _ (legacy : BuildJob → Repository → BuildResources) where
  abbrev pub known_or_legacy : BuildJob → Repository → Option BuildResources → Action BuildResources
  known_or_legacy build r none = ensure_build_resources (legacy build r)
  known_or_legacy build r (some m) = pure m

  unfoldable pub manifest : String → Action BuildResources
  manifest build_id = do
    r ← get_repository
    build ← build_or_missing (lookup build_id r.builds)
    known_or_legacy build r (lookup build_id r.build_resources)

-- ===== src/Cleanup/Request.antt =====
-- `request_cleanup` and `recover` of orchestrator/build_resources.py.
use docker_jenkins_orchestra.Prelude.{
  ℕ, ◌+◌, String, ◌⊎◌, inl, inr, Bool, true, false, not, ◌||◌, Option, none, some, List, [], ◌∷◌,
  ◌++◌, ltb, if◌then◌else◌, ◌==◌, nat_eq, string_eq, option_eq, pair_eq,
}
use docker_jenkins_orchestra.Models.Resources.{BuildResources, CleanupStatus, cleanup_status_eq}
use docker_jenkins_orchestra.Repository.Resources.{
  ManifestField, Expectation, lease_owner_is, cleanup_status_is, cleanup_generation_is,
  update_build_resources, list_cleanup_resources,
}
use docker_jenkins_orchestra.Tracker.{ResourceTracker}
use docker_jenkins_orchestra.Cleanup.{Jenkins, assert_quiescent, with_build_lease}
use docker_jenkins_orchestra.World.{
  Action, Error, Task, pure, raise, utc_now, dispatch, ◌>>=◌, ◌>>◌,
}

-- queued or running
abbrev pub is_underway : CleanupStatus → Bool
is_underway CleanupStatus.queued = true
is_underway CleanupStatus.running = true
is_underway _ = false

abbrev pub is_cleaned : CleanupStatus → Bool
is_cleaned CleanupStatus.succeeded = true
is_cleaned _ = false

-- the HTTP status of an answer
abbrev pub answer_of : BuildResources → BuildResources × ℕ
answer_of m = (m, if is_cleaned m.cleanup_status then 200 else 202)

-- `"lease_owner": tracker.owner`
abbrev pub owner_is : ResourceTracker → List Expectation
owner_is tracker = elim tracker.owner [ none ↦ [] | some owner ↦ lease_owner_is owner ∷ [] ]

-- The manifest of a build, which `manifest` reads or makes up for a build of an older version.
module _ (manifest : String → Action BuildResources) (jenkins : Option Jenkins) where
  abbrev pub queued_or_conflict : Option BuildResources → Action BuildResources
  queued_or_conflict none = raise (Error.resource_conflict "Concurrent cleanup state change")
  queued_or_conflict (some m) = pure m

  -- the body under the lease: an answer at once, or the manifest that is now queued
  abbrev pub queue_cleanup :
      String → Option ResourceTracker → Action ((BuildResources × ℕ) ⊎ BuildResources)
  queue_cleanup build_id none = do
    current ← manifest build_id
    if is_underway current.cleanup_status || is_cleaned current.cleanup_status
        then pure (inl (answer_of current))
        else raise (Error.resource_conflict "Build resource operation is still running")
  queue_cleanup build_id (some tracker) = do
    current ← manifest build_id
    now ← utc_now
    updated ←
        update_build_resources build_id
          (ManifestField.cleanup_status CleanupStatus.queued
            ∷ ManifestField.cleanup_generation (current.cleanup_generation + 1)
            ∷ ManifestField.cleanup_requested_at (some now)
            ∷ ManifestField.finished_at none
            ∷ ManifestField.last_error none
            ∷ [])
          (owner_is tracker ++ (cleanup_status_is current.cleanup_status ∷ []))
    queued ← queued_or_conflict updated
    pure (inr queued)

  abbrev pub sent_or_failed : String → BuildResources → Option String → Action (BuildResources × ℕ)
  sent_or_failed build_id queued none = do
    _ ←
        update_build_resources build_id
          (ManifestField.cleanup_status CleanupStatus.partial_failed
            ∷ ManifestField.last_error (some "Unable to enqueue cleanup task")
            ∷ [])
          (cleanup_status_is CleanupStatus.queued
            ∷ cleanup_generation_is queued.cleanup_generation
            ∷ [])
    raise (Error.repository_error "Unable to enqueue cleanup task")
  sent_or_failed build_id queued (some task_id) = do m ← manifest build_id; pure (m, 202)

  abbrev pub send_cleanup :
      String → Bool → (BuildResources × ℕ) ⊎ BuildResources → Action (BuildResources × ℕ)
  send_cleanup build_id dispatches (inl answer) = pure answer
  send_cleanup build_id false (inr queued) = do m ← manifest build_id; pure (m, 202)
  send_cleanup build_id true (inr queued) = do
    sent ← dispatch (Task.cleanup_build build_id)
    sent_or_failed build_id queued sent

  unfoldable pub request_cleanup : String → Bool → Action (BuildResources × ℕ)
  request_cleanup build_id dispatches = do
    m ← manifest build_id
    if is_cleaned m.cleanup_status || is_underway m.cleanup_status then pure (answer_of m) else (do
      assert_quiescent jenkins build_id
      outcome ←
          with_build_lease build_id (CleanupStatus.not_started ∷ CleanupStatus.partial_failed ∷ [])
            (queue_cleanup build_id)
      send_cleanup build_id dispatches outcome)

abbrev pub owner_known : Option String → Bool
owner_known none = false
owner_known (some owner) = not (owner == "")

-- whether a lease still runs; the clock is read only if there is an owner and an end
abbrev pub lease_runs : BuildResources → Action Bool
lease_runs m = elim m.lease_expires_at [
  | none ↦ pure false
  | some expires_at ↦
      if owner_known m.lease_owner
      then (do now ← utc_now; pure (ltb now expires_at))
      else pure false
]

abbrev pub sent_or_raise : Option String → Action (Unit {0})
sent_or_raise none = raise (Error.python_error "Exception" "the broker refuses the message")
sent_or_raise (some task_id) = pure tt

-- the loop of `recover`
unfoldable pub schedule_cleanups : ℕ → List BuildResources → Action ℕ
schedule_cleanups scheduled [] = pure scheduled
schedule_cleanups scheduled (m ∷ ms) = do
  running ← lease_runs m
  elim running [
    | true ↦ schedule_cleanups scheduled ms
    | false ↦ (do
      sent ← dispatch (Task.cleanup_build m.build_id)
      sent_or_raise sent
      schedule_cleanups (scheduled + 1) ms)
  ]

unfoldable pub recover : Action ℕ
recover = do ms ← list_cleanup_resources; schedule_cleanups 0 ms

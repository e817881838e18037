-- ===== src/Cleanup/Gated.antt =====
-- What has to hold before a request for cleanup sends its message.
use docker_jenkins_orchestra.Prelude.{
  ℕ, String, ◌≡◌, refl, ap, ◌∙◌, ◌≢◌, ◌⊎◌, inl, inr, Bool, true, false, ◌||◌, ◌+◌, Option, none,
  some, List, [], ◌∷◌, ◌++◌, arith, nat_eq, string_eq, if◌then◌else◌, Bool-cases, Option-cases,
  option_eq, pair_eq,
}
use docker_jenkins_orchestra.Prelude.Dict.{lookup}
use docker_jenkins_orchestra.Models.Build.{BuildJob, is_terminal}
use docker_jenkins_orchestra.Models.Resources.{BuildResources, CleanupStatus}
use docker_jenkins_orchestra.Repository.State.{Repository}
use docker_jenkins_orchestra.Cleanup.{
  Jenkins, has_text, assert_quiescent, manifest, with_build_lease,
}
use docker_jenkins_orchestra.Cleanup.Ended.{
  HasEnded, if-IsQuiet, assert_quiescent-ok, assert_quiescent-IsQuiet,
}
use docker_jenkins_orchestra.Cleanup.Quiet.{
  IsQuiet, pure-IsQuiet, raise-IsQuiet, utc_now-IsQuiet, >>=-IsQuiet, sends_after,
  update_build_resources-IsQuiet, manifest-IsQuiet, with_build_lease-IsQuiet,
}
use docker_jenkins_orchestra.Cleanup.Request.{
  is_underway, is_cleaned, answer_of, queue_cleanup, queued_or_conflict, send_cleanup,
  request_cleanup,
}
use docker_jenkins_orchestra.Tracker.{ResourceTracker}
use docker_jenkins_orchestra.World.{Action, World, Result, ok, Task, pure, dispatch, ◌>>=◌, ◌>>◌}

module _ (legacy : BuildJob → Repository → BuildResources) (jenkins : Option Jenkins)
    (build_id : String) where
  queued_or_conflict-IsQuiet :
      (o : Option BuildResources) → IsQuiet (queued_or_conflict (manifest legacy) jenkins o)
  queued_or_conflict-IsQuiet none = raise-IsQuiet _
  queued_or_conflict-IsQuiet (some m) = pure-IsQuiet m

  queue_cleanup-IsQuiet :
      (t : Option ResourceTracker) → IsQuiet (queue_cleanup (manifest legacy) jenkins build_id t)
  queue_cleanup-IsQuiet none = >>=-IsQuiet (manifest-IsQuiet legacy build_id) λ current.
      if-IsQuiet (is_underway current.cleanup_status || is_cleaned current.cleanup_status)
        (pure-IsQuiet _) (raise-IsQuiet _)
  queue_cleanup-IsQuiet (some tracker) = >>=-IsQuiet (manifest-IsQuiet legacy build_id) λ current.
      >>=-IsQuiet utc_now-IsQuiet λ now.
        >>=-IsQuiet (update_build_resources-IsQuiet build_id _ _)
          λ updated. >>=-IsQuiet (queued_or_conflict-IsQuiet updated) λ queued. pure-IsQuiet _

  -- the message of a cleanup is the only one that the last part sends
  send_cleanup-sends :
      (dispatches : Bool) (outcome : (BuildResources × ℕ) ⊎ BuildResources) (w : World)
      → (send_cleanup (manifest legacy) jenkins build_id dispatches outcome w).1.dispatched
        ≢ w.dispatched
      → (send_cleanup (manifest legacy) jenkins build_id dispatches outcome w).1.dispatched
        ≡ w.dispatched ++ Task.cleanup_build build_id ∷ []
  unfolding ◌>>=◌
  send_cleanup-sends dispatches (inl answer) w sends = absurd (sends refl)
  send_cleanup-sends false (inr queued) w sends =
      absurd (
        sends
          ((>>=-IsQuiet (manifest-IsQuiet legacy build_id) (λ m. pure-IsQuiet (m, 202))).same w))
  send_cleanup-sends true (inr queued) w sends = elim (Option-cases (w.broker w.sent)) [
    | inl refused ↦ absurd (
        sends (
          rw (refused, dispatch)
            ((>>=-IsQuiet (update_build_resources-IsQuiet build_id _ _) (λ u. raise-IsQuiet _)).same
              (record w { sent = w.sent + 1 }))))
    | inr (task_id, taken) ↦
        rw (taken, dispatch)
          ((>>=-IsQuiet (manifest-IsQuiet legacy build_id) (λ m. pure-IsQuiet (m, 202))).same
            (record w {
              sent = w.sent + 1;
              dispatched = w.dispatched ++ Task.cleanup_build build_id ∷ [];
            }))
  ]

  -- `request_cleanup` of a cleanup that is neither under way nor done
  abbrev queueing : Bool → Action (BuildResources × ℕ)
  queueing dispatches = do
    assert_quiescent jenkins build_id
    outcome ←
        with_build_lease build_id (CleanupStatus.not_started ∷ CleanupStatus.partial_failed ∷ [])
          (queue_cleanup (manifest legacy) jenkins build_id)
    send_cleanup (manifest legacy) jenkins build_id dispatches outcome

  queueing-sends :
      (dispatches : Bool) (w : World)
      → (queueing dispatches w).1.dispatched ≢ w.dispatched
      → ((assert_quiescent jenkins build_id w).0 ≡ ok tt)
        × ((queueing dispatches w).1.dispatched ≡ w.dispatched ++ Task.cleanup_build build_id ∷ [])
  queueing-sends dispatches w sends =
      let (u, v, ended, runs, same, sends') =
        sends_after (assert_quiescent jenkins build_id) _ w
          (assert_quiescent-IsQuiet jenkins build_id) sends in
      let (outcome, v', held, runs', same', sends'') =
        sends_after (with_build_lease build_id _ (queue_cleanup (manifest legacy) jenkins build_id))
          _ v (with_build_lease-IsQuiet build_id _ _ queue_cleanup-IsQuiet) sends' in
      let sent = send_cleanup-sends dispatches outcome v' sends'' in
      (
        ap (λ (p : Result (Unit {0}) × World). p.0) ended,
        ap (λ (p : Result (BuildResources × ℕ) × World). p.1.dispatched) (runs ∙ runs')
            ∙ sent
            ∙ ap (λ (ts : List Task). ts ++ Task.cleanup_build build_id ∷ []) (same' ∙ same),
      )

  request-missing :
      (dispatches : Bool) (w : World)
      → lookup build_id w.repository.builds ≡ none
      → (request_cleanup (manifest legacy) jenkins build_id dispatches w).1.dispatched
        ≡ w.dispatched
  unfolding request_cleanup manifest ◌>>=◌
  request-missing dispatches w absent = rw absent

  request-stored :
      (dispatches : Bool) (w : World) (build : BuildJob) (m : BuildResources)
      → lookup build_id w.repository.builds ≡ some build
      → lookup build_id w.repository.build_resources ≡ some m
      → request_cleanup (manifest legacy) jenkins build_id dispatches w
        ≡ (if is_cleaned m.cleanup_status || is_underway m.cleanup_status
              then pure (answer_of m)
              else queueing dispatches)
            w
  unfolding request_cleanup manifest ◌>>=◌
  request-stored dispatches w build m stored known = rw (stored, known)

  -- When a request for the cleanup of a build with a stored manifest has sent a message, it is
  -- one, to clean up that build. Before the request the build was stored and its life was over;
  -- its cleanup was neither under way nor done; the manifest knew of no Jenkins trigger without an
  -- address in the queue; and Jenkins had ended or cancelled what the build names: the numbered
  -- build, or where there is no number what its address in the queue gives. Without Jenkins the
  -- build names neither.
  pub request_cleanup_gated :
      (dispatches : Bool) (w : World) (m : BuildResources)
      → lookup build_id w.repository.build_resources ≡ some m
      → let after = (request_cleanup (manifest legacy) jenkins build_id dispatches w).1 in
        after.dispatched ≢ w.dispatched
        → (build : BuildJob) × (lookup build_id w.repository.builds ≡ some build)
          × (is_terminal build.status ≡ true)
          × (is_cleaned m.cleanup_status ≡ false)
          × (is_underway m.cleanup_status ≡ false)
          × (m.jenkins_trigger_pending ≡ true → has_text build.jenkins_queue_url ≡ true)
          × HasEnded jenkins build.jenkins_queue_url build.jenkins_build_number
          × (after.dispatched ≡ w.dispatched ++ Task.cleanup_build build_id ∷ [])
  request_cleanup_gated dispatches w m known sends =
      elim (Option-cases (lookup build_id w.repository.builds)) [
        | inl absent ↦ absurd (sends (request-missing dispatches w absent))
        | inr (build, stored) ↦
            let runs = request-stored dispatches w build m stored known in
            elim (Bool-cases (is_cleaned m.cleanup_status || is_underway m.cleanup_status)) [
              | inl answered ↦
                  absurd (sends (rw runs (rw answered ((pure-IsQuiet (answer_of m)).same w))))
              | inr idle ↦
                  let runs' : request_cleanup (manifest legacy) jenkins build_id dispatches w
                      ≡ queueing dispatches w =
                    rw idle at runs in
                  let (ended, sent) = queueing-sends dispatches w (rw runs' at sends) in
                  let (over, addressed, finished) =
                    assert_quiescent-ok jenkins build_id w build m stored known ended in
                  (
                    build,
                    stored,
                    over,
                    ground arith,
                    ground arith,
                    addressed,
                    finished,
                    rw runs' sent,
                  )
            ]
      ]

-- ===== src/Services/Build/Outcome.antt =====
-- What `transition` returns and stores when no other worker writes in between.
use docker_jenkins_orchestra.Prelude.{
  ◌+◌, ◌≤◌, String, ◌≡◌, refl, sym, ap, ◌∙◌, ◌≢◌, inl, inr, true, false, some, List, if◌then◌else◌,
  ◌==◌, nat_eq, string_eq, Bool-cases, Option-cases, option_eq, pair_eq, length,
}
use docker_jenkins_orchestra.Prelude.Dict.{lookup, lookup-insert}
use docker_jenkins_orchestra.Models.Build.{BuildStatus, BuildJob, build_status_eq, is_terminal}
use docker_jenkins_orchestra.Repository.Builds.{BuildField, store_build, moved}
use docker_jenkins_orchestra.Services.Build.{
  get_build-bind_missing, get_build-bind_found, record_event, conclude, move_build, transition_from,
  transition, transition_fields, refuses, stage_after, ends_with,
}
use docker_jenkins_orchestra.Services.Build.Lifecycle.{swap_hit, builds-conclude, status-moved}
use docker_jenkins_orchestra.Services.Build.History.{
  stage_history-moved, finished_at-moved, ends_with-next_history, length-next_history,
}
use docker_jenkins_orchestra.World.{World, Error, ok, err, ◌>>=◌}

ok_ne_err : {A : Type 0} (a : A) (e : Error) → ok a ≢ err e
ok_ne_err a e h = cc

module _ (id : String) (target : BuildStatus) (fields : List BuildField) (w : World) where
  abbrev pub after_transition : BuildJob → BuildJob
  after_transition b = moved target (transition_fields b target (w.clock w.ticks) fields) b

  abbrev pub stored : BuildJob → World
  stored b = record w {
    repository = (store_build id (after_transition b) w.repository).0;
    ticks = w.ticks + 1;
  }

  pub move_build_lem :
      (b : BuildJob)
      → lookup id w.repository.builds ≡ some b
      → move_build (λ r. r) id b target fields w
        ≡ conclude id target (some (after_transition b)) (stored b)
  unfolding move_build ◌>>=◌
  move_build_lem b found = rw (
      swap_hit id b.status target (transition_fields b target (w.clock w.ticks) fields) w.repository
        b found refl)

  pub transition-eq_conclude :
      (b : BuildJob)
      → lookup id w.repository.builds ≡ some b
      → (b.status == target) ≡ false
      → refuses b.status target ≡ false
      → transition (λ r. r) id target fields w
        ≡ conclude id target (some (after_transition b)) (stored b)
  unfolding transition transition_from
  transition-eq_conclude b found other open_way =
      rw (get_build-bind_found id (transition_from (λ r. r) id target fields) w b found)
        (rw (other, open_way) (move_build_lem b found))

  conclude-ok : (b : BuildJob) (v : World) → (conclude id target (some b) v).0 ≡ ok b
  unfolding conclude record_event ◌>>=◌
  conclude-ok b v = refl

  -- With no other writer in between, a call of transition that raises has changed nothing at all.
  pub transition_error_unchanged :
      {e : Error}
      → (transition (λ r. r) id target fields w).0 ≡ err e
      → (transition (λ r. r) id target fields w).1 ≡ w
  unfolding transition transition_from ◌>>=◌
  transition_error_unchanged h = elim (Option-cases (lookup id w.repository.builds)) [
    | inl absent ↦
        rw (get_build-bind_missing id (transition_from (λ r. r) id target fields) w absent)
    | inr (b, found) ↦
        let read = get_build-bind_found id (transition_from (λ r. r) id target fields) w b found in
        elim (Bool-cases (b.status == target)) [
          | inl same ↦ rw read (rw same)
          | inr other ↦ elim (Bool-cases (refuses b.status target)) [
            | inl refused ↦ rw read (rw (other, refused))
            | inr open_way ↦
                let moves = transition-eq_conclude b found other open_way in
                absurd (ok_ne_err _ _ (sym (conclude-ok _ _) ∙ sym (ap (λ p. p.0) moves) ∙ h))
          ]
        ]
  ]

  -- With no other writer in between, of a stored build that may move to another status, the target:
  -- the call returns the moved build and stores it under its identifier, leaving all other builds;
  -- it has the target as its status, the new stage at the end of a history of at most 32, and its
  -- end time if the target is terminal.
  pub transition_moves :
      (b : BuildJob)
      → lookup id w.repository.builds ≡ some b
      → (b.status == target) ≡ false
      → refuses b.status target ≡ false
      → let after = transition (λ r. r) id target fields w in
        let built = after_transition b in
        (after.0 ≡ ok built)
        × ((j : String)
            → lookup j after.1.repository.builds
              ≡ (if id == j then some built else lookup j w.repository.builds))
        × (built.status ≡ target)
        × (ends_with built.stage_history (stage_after target fields) ≡ true)
        × (length built.stage_history ≤ 32)
        × (is_terminal target ≡ true → built.finished_at ≡ some (w.clock w.ticks))
  transition_moves b found other open_way = rw (transition-eq_conclude b found other open_way) (
    conclude-ok _ _,
    λ j.
        ap (lookup j) (builds-conclude id target _ (stored b))
        ∙ lookup-insert id j (after_transition b) w.repository.builds,
    status-moved target _ b,
    rw (stage_history-moved b target (w.clock w.ticks) fields)
        (ends_with-next_history b (stage_after target fields)),
    rw (stage_history-moved b target (w.clock w.ticks) fields)
        (length-next_history b (stage_after target fields)),
    finished_at-moved b target (w.clock w.ticks) fields,
  )

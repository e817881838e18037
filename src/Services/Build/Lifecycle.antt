-- ===== src/Services/Build/Lifecycle.antt =====
-- The life of a build as a relation, and that `transition` follows it whatever the other workers
-- do meanwhile.
use docker_jenkins_orchestra.Prelude.{
  String, ◌≡◌, refl, ◌≢◌, ◌⊎◌, inl, inr, false, Option, none, some, List, [], ◌∷◌, arith, eq_iff,
  ◌==◌, nat_eq, string_eq, Bool-cases, Option-cases, option_eq, pair_eq,
}
use docker_jenkins_orchestra.Prelude.Dict.{lookup, lookup-insert}
use docker_jenkins_orchestra.Models.Build.{
  BuildStatus, queued, validating, triggering, building, deploying, succeeded, failed, cancelled,
  build_status_eq, is_terminal, BuildJob,
}
use docker_jenkins_orchestra.Repository.State.{Repository}
use docker_jenkins_orchestra.Repository.Builds
use docker_jenkins_orchestra.Repository.Builds.{BuildField, store_build, moved}
use docker_jenkins_orchestra.Services.Build.{
  get_build, get_build-bind_missing, get_build-bind_found, record_event, conclude, move_build,
  transition_from, transition, transition_fields, refuses,
}
use docker_jenkins_orchestra.World.{World, ◌>>=◌}

pub data Step : BuildStatus → BuildStatus → Type 0 where
  validate : Step queued validating
  trigger : Step validating triggering
  start : Step triggering building
  deploy : Step building deploying
  succeed : Step deploying succeeded
  abort : {s : BuildStatus} → is_terminal s ≡ false → Step s failed
  cancel : {s : BuildStatus} → is_terminal s ≡ false → Step s cancelled

pub data Reach : BuildStatus → BuildStatus → Type 0 where
  here : {s : BuildStatus} → Reach s s
  next : {s t u : BuildStatus} → Step s t → Reach t u → Reach s u

pub Reach-trans : {s t u : BuildStatus} → Reach s t → Reach t u → Reach s u
Reach-trans here q = q
Reach-trans (next st p) q = next st (Reach-trans p q)

-- what `transition` lets through is a step
pub refuses-Step : (s t : BuildStatus) → refuses s t ≡ false → Step s t
refuses-Step queued validating h = validate
refuses-Step validating triggering h = trigger
refuses-Step triggering building h = start
refuses-Step building deploying h = deploy
refuses-Step deploying succeeded h = succeed
refuses-Step queued failed h = abort refl
refuses-Step validating failed h = abort refl
refuses-Step triggering failed h = abort refl
refuses-Step building failed h = abort refl
refuses-Step deploying failed h = abort refl
refuses-Step queued cancelled h = cancel refl
refuses-Step validating cancelled h = cancel refl
refuses-Step triggering cancelled h = cancel refl
refuses-Step building cancelled h = cancel refl
refuses-Step deploying cancelled h = cancel refl
refuses-Step _ _ h = cc

-- Every build of `r` is in `r'`, at the same status or at one that its life leads to.
pub record Evolves (r r' : Repository) : Type 0 where
  pub at :
      (id : String) (b : BuildJob)
      → lookup id r.builds ≡ some b
      → (b' : BuildJob) × (lookup id r'.builds ≡ some b') × Reach b.status b'.status

pub Evolves-refl : {r r' : Repository} → r'.builds ≡ r.builds → Evolves r r'
Evolves-refl e = record { at = λ id b h. (b, cc (e, h), here) }

pub Evolves-trans : {r s t : Repository} → Evolves r s → Evolves s t → Evolves r t
Evolves-trans p q = record {
  at = λ id b h.
      let (b', h', reach) = p.at id b h in
      let (b'', h'', reach') = q.at id b' h' in (b'', h'', Reach-trans reach reach');
}

pub builds-conclude :
    (id : String) (target : BuildStatus) (updated : Option BuildJob) (w : World)
    → (conclude id target updated w).1.repository.builds ≡ w.repository.builds
unfolding conclude get_build record_event Builds.append_event ◌>>=◌
builds-conclude id target none w = ground arith
builds-conclude id target (some b) w = refl

module _ (id : String) (from target : BuildStatus) (fields : List BuildField) (r : Repository) where
  pub swap_hit :
      (b : BuildJob)
      → lookup id r.builds ≡ some b
      → b.status ≡ from
      → Builds.transition_build id (from ∷ []) target fields r
        ≡ store_build id (moved target fields b) r
  unfolding Builds.transition_build
  swap_hit b h e =
      rw (h, Builds.transition_build) (rw ((build_status_eq.beq_iff b.status from).1 e))

  pub swap_miss :
      (lookup id r.builds ≡ none)
        ⊎ ((b : BuildJob) × (lookup id r.builds ≡ some b) × (b.status ≢ from))
      → Builds.transition_build id (from ∷ []) target fields r ≡ (r, none)
  unfolding Builds.transition_build
  swap_miss (inl h) = rw (h, Builds.transition_build)
  swap_miss (inr (b, h, ne)) =
      rw (h, Builds.transition_build) (ground (arith, build_status_eq.beq_iff b.status from))

  data Swap : Type 0 where
    hit :
        (b : BuildJob)
        → lookup id r.builds ≡ some b
        → b.status ≡ from
        → Builds.transition_build id (from ∷ []) target fields r
          ≡ store_build id (moved target fields b) r
        → Swap
    miss : Builds.transition_build id (from ∷ []) target fields r ≡ (r, none) → Swap

  swap_cases : Swap
  swap_cases = elim (Option-cases (lookup id r.builds)) [
    | inl absent ↦ miss (swap_miss (inl absent))
    | inr (b, found) ↦ elim (Bool-cases (b.status == from)) [
      | inl same ↦
          hit b found ((build_status_eq.beq_iff b.status from).0 same)
            (swap_hit b found ((build_status_eq.beq_iff b.status from).0 same))
      | inr other ↦
          miss (
            swap_miss
              (inr (b, found, λ e. cc ((build_status_eq.beq_iff b.status from).1 e, other))))
    ]
  ]

pub status-moved :
    (target : BuildStatus) (fields : List BuildField) (b : BuildJob)
    → (moved target fields b).status ≡ target
unfolding moved
status-moved target fields b = refl

store-Evolves :
    (id : String) (b b' : BuildJob) (r : Repository)
    → lookup id r.builds ≡ some b
    → Reach b.status b'.status
    → Evolves r (store_build id b' r).0
store-Evolves id b b' r found reach = record {
  at = λ j c h. elim (Bool-cases (id == j)) [
    | inl same ↦ (b', rw (lookup-insert, same), reach_from j c h ((eq_iff id j).0 same))
    | inr other ↦ (c, rw (lookup-insert, other) h, here)
  ];
}
  where
    reach_from :
        (j : String) (c : BuildJob) → lookup j r.builds ≡ some c → id ≡ j → Reach c.status b'.status
    reach_from j c h e = let same : c ≡ b = cc (h, e, found) in rw same reach

-- the compare-and-swap, at the status that was read
swap-Evolves :
    (id : String) (from target : BuildStatus) (fields : List BuildField) (r : Repository)
    → Step from target
    → Evolves r (Builds.transition_build id (from ∷ []) target fields r).0
swap-Evolves id from target fields r st = elim (swap_cases id from target fields r) [
  | miss e ↦ rw e (Evolves-refl refl)
  | hit b found same e ↦
      rw e (
        store-Evolves id b (moved target fields b) r found (rw (same, status-moved) (next st here)))
]

module _ {others : Repository → Repository}
    (meanwhile : (r : Repository) → Evolves r (others r)) where
  move_build-Evolves :
      (id : String) (b : BuildJob) (target : BuildStatus) (fields : List BuildField) (w : World)
      → Step b.status target
      → Evolves w.repository (move_build others id b target fields w).1.repository
  unfolding move_build ◌>>=◌
  move_build-Evolves id b target fields w st =
      let now = w.clock w.ticks in
      Evolves-trans (meanwhile w.repository) (
        Evolves-trans
          (swap-Evolves id b.status target (transition_fields b target now fields)
            (others w.repository) st)
          (Evolves-refl (builds-conclude id target _ _)))

  transition_from-Evolves :
      (id : String) (target : BuildStatus) (fields : List BuildField) (b : BuildJob) (w : World)
      → Evolves w.repository (transition_from others id target fields b w).1.repository
  unfolding transition_from ◌>>=◌
  transition_from-Evolves id target fields b w = elim (Bool-cases (b.status == target)) [
    | inl same ↦ rw same (Evolves-refl refl)
    | inr other ↦ elim (Bool-cases (refuses b.status target)) [
      | inl refused ↦ rw (other, refused) (Evolves-refl refl)
      | inr open_way ↦
          rw (other, open_way)
            (move_build-Evolves id b target fields w (refuses-Step b.status target open_way))
    ]
  ]

  -- Whatever the other workers do to the builds in between, as long as they too only move builds
  -- along their lives: a call of transition, accepted or refused, loses no build and moves none
  -- against its life.
  pub transition-Evolves :
      (id : String) (target : BuildStatus) (fields : List BuildField) (w : World)
      → Evolves w.repository (transition others id target fields w).1.repository
  unfolding transition
  transition-Evolves id target fields w = elim (Option-cases (lookup id w.repository.builds)) [
    | inl absent ↦
        rw (get_build-bind_missing id (transition_from others id target fields) w absent)
          (Evolves-refl refl)
    | inr (b, found) ↦
        rw (get_build-bind_found id (transition_from others id target fields) w b found)
          (transition_from-Evolves id target fields b w)
  ]

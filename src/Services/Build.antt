-- ===== src/Services/Build.antt =====
-- `BuildService` of orchestrator/services.py: the life of a build.
pub mod Lifecycle
pub mod History
pub mod Outcome
use docker_jenkins_orchestra.Prelude.{
  ℕ, zero, suc, ◌+◌, ◌-◌, ◌*◌, ◌/◌, ◌%◌, ◌^◌, ◌≤◌, ◌<◌, String, ◌≡◌, refl, sym, ap, ◌∙◌, ◌≢◌, ◌↔◌,
  ◌⊎◌, inl, inr, Bool, true, false, not, ◌&&◌, ◌||◌, Option, none, some, List, [], ◌∷◌, ◌++◌, map,
  arith, eq_iff, ltb, leb, nat_beq, if◌then◌else◌, nat_beq_iff, leb_iff, ltb_iff, Eq, ◌==◌, nat_eq,
  string_eq, concat, Bool-cases, Option-cases, is_some, ==-refl, option_eq, pair_eq, length, take,
  drop, all, any, length-append, length-take, length-drop, All, All-append,
}
use docker_jenkins_orchestra.Prelude.Dict.{lookup}
use docker_jenkins_orchestra.Models.Value.{Value}
use docker_jenkins_orchestra.Models.Build.{
  BuildStatus, queued, validating, triggering, building, deploying, succeeded, failed, cancelled,
  build_status_eq, status_value, is_terminal, BuildJob, EventLevel,
}
use docker_jenkins_orchestra.Repository.State.{Repository}
use docker_jenkins_orchestra.Repository.Builds
use docker_jenkins_orchestra.Repository.Builds.{BuildField}
use docker_jenkins_orchestra.World.{
  Action, World, err, Error, pure, raise, get_repository, put_repository, utc_now, uuid4, ◌>>=◌,
  ◌>>◌,
}

-- `ALLOWED_BUILD_TRANSITIONS`
abbrev pub allowed_transitions : BuildStatus → List BuildStatus
allowed_transitions queued = validating ∷ failed ∷ cancelled ∷ []
allowed_transitions validating = triggering ∷ failed ∷ cancelled ∷ []
allowed_transitions triggering = building ∷ failed ∷ cancelled ∷ []
allowed_transitions building = deploying ∷ failed ∷ cancelled ∷ []
allowed_transitions deploying = succeeded ∷ failed ∷ cancelled ∷ []
allowed_transitions _ = []

abbrev or_not_found : Option BuildJob → Action BuildJob
or_not_found none = raise (Error.not_found "Build not found")
or_not_found (some build) = pure build

unfoldable pub get_build : String → Action BuildJob
get_build build_id = do r ← get_repository; or_not_found (Builds.get_build build_id r)

pub get_build-bind_missing {ℓ} :
    {B : Type ℓ} (id : String) (f : BuildJob → Action B) (w : World)
    → lookup id w.repository.builds ≡ none
    → (get_build id >>= f) w ≡ (err (Error.not_found "Build not found"), w)
unfolding get_build ◌>>=◌ Builds.get_build
get_build-bind_missing id f w h = ground (arith, h)

pub get_build-bind_found {ℓ} :
    {B : Type ℓ} (id : String) (f : BuildJob → Action B) (w : World) (b : BuildJob)
    → lookup id w.repository.builds ≡ some b
    → (get_build id >>= f) w ≡ f b w
unfolding get_build ◌>>=◌ Builds.get_build
get_build-bind_found id f w b h = rw h

-- `_event`, and `record_event`, which calls it with the same arguments
unfoldable pub record_event :
    String
    → Option String
    → String
    → String
    → EventLevel
    → List (String × Value)
    → Action (Unit {0})
record_event appid build_id kind message level details = do
  event_id ← uuid4
  created_at ← utc_now
  r ← get_repository
  put_repository (
      Builds.append_event
        (record {
          event_id = event_id;
          appid = appid;
          build_id = build_id;
          kind = kind;
          level = level;
          message = message;
          details = details;
          created_at = created_at;
        })
        r)

abbrev pub given_stage : List BuildField → Option String
given_stage [] = none
given_stage (BuildField.stage s ∷ fs) = some s
given_stage (f ∷ fs) = given_stage fs

-- the stage of the update: the caller's, or the name of the target
abbrev pub stage_after : BuildStatus → List BuildField → String
stage_after target fields = elim (given_stage fields) [ none ↦ status_value target | some s ↦ s ]

-- `history[-1] == stage`, false on an empty history
abbrev pub ends_with : List String → String → Bool
ends_with [] stage = false
ends_with (s ∷ []) stage = s == stage
ends_with (s ∷ (t ∷ ss)) stage = ends_with (t ∷ ss) stage

-- `list(build.stage_history or [])`, or the stage alone where there is no history
abbrev pub known_history : BuildJob → List String
known_history build = elim build.stage_history [
  | [] ↦ elim build.stage [ none ↦ [] | some s ↦ if s == "" then [] else s ∷ [] ]
  | s ∷ ss ↦ s ∷ ss
]

-- `history[-32:]`
unfoldable pub last_32 : List String → List String
last_32 history = drop (length history - 32) history

unfoldable pub next_history : BuildJob → String → List String
next_history build stage =
    let history = known_history build in
    last_32 (if ends_with history stage then history else history ++ stage ∷ [])

unfoldable pub transition_fields : BuildJob → BuildStatus → ℕ → List BuildField → List BuildField
transition_fields build target now fields =
    fields
    ++ (BuildField.updated_at now
        ∷ ((if target == validating && not (is_some build.started_at)
              then BuildField.started_at now ∷ []
              else [])
            ++ ((if is_terminal target then BuildField.finished_at now ∷ [] else [])
                ++ (BuildField.stage (stage_after target fields)
                    ∷ BuildField.stage_history (next_history build (stage_after target fields))
                    ∷ []))))

abbrev pub event_level : BuildStatus → EventLevel
event_level failed = EventLevel.error
event_level _ = EventLevel.info

-- Whether `transition` refuses to move from one status to another.
abbrev pub refuses : BuildStatus → BuildStatus → Bool
refuses current target =
    is_terminal current || not (any (λ s. target == s) (allowed_transitions current))

-- The end of `transition`: an update that found another status than the one read is an error,
-- unless the build stands where it should go.
unfoldable pub conclude : String → BuildStatus → Option BuildJob → Action BuildJob
conclude build_id target none = do
  current ← get_build build_id
  if current.status == target
      then pure current
      else raise (Error.invalid_transition "Concurrent build status update")
conclude build_id target (some updated) = do
  record_event updated.appid (some build_id) (concat ("build." ∷ status_value target ∷ []))
      (concat ("Build is " ∷ status_value target ∷ [])) (event_level target) []
  pure updated

-- What the other workers do to the repository between the read and the compare-and-swap.
module _ (others : Repository → Repository) where
  unfoldable pub move_build : String → BuildJob → BuildStatus → List BuildField → Action BuildJob
  move_build build_id build target fields = do
    now ← utc_now
    r ← get_repository
    let (r', updated) =
        Builds.transition_build build_id (build.status ∷ []) target
          (transition_fields build target now fields) (others r)
    put_repository r'
    conclude build_id target updated

  -- `transition` after it has read the build
  unfoldable pub transition_from :
      String → BuildStatus → List BuildField → BuildJob → Action BuildJob
  transition_from build_id target fields build =
      if build.status == target
      then pure build
      else if refuses build.status target
      then raise (
          Error.invalid_transition (
            concat (
              "Cannot transition build from "
              ∷ status_value build.status
              ∷ " to "
              ∷ status_value target
              ∷ [])))
      else move_build build_id build target fields

  unfoldable pub transition : String → BuildStatus → List BuildField → Action BuildJob
  transition build_id target fields = do
    build ← get_build build_id
    transition_from build_id target fields build

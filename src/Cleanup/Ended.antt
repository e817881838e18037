-- ===== src/Cleanup/Ended.antt =====
-- What `assert_quiescent` lets through: a build that is over, with nothing of it left in Jenkins.
use docker_jenkins_orchestra.Prelude.{
  ℕ, String, ◌≡◌, refl, ap, ◌∙◌, ◌⊎◌, inl, inr, Bool, true, false, not, ◌&&◌, ◌||◌, Option, none,
  some, arith, eq_iff, ◌==◌, nat_eq, string_eq, if◌then◌else◌, Bool-cases, option_eq, pair_eq,
}
use docker_jenkins_orchestra.Prelude.Dict.{lookup}
use docker_jenkins_orchestra.Models.Build.{BuildJob, is_terminal}
use docker_jenkins_orchestra.Models.Resources.{BuildResources}
use docker_jenkins_orchestra.Cleanup.{
  Jenkins, conflict_if, build_or_missing, has_text, assert_build_ended, assert_item_ended,
  assert_execution, assert_quiescent,
}
use docker_jenkins_orchestra.Cleanup.Quiet.{
  IsQuiet, pure-IsQuiet, raise-IsQuiet, lift-IsQuiet, get_repository-IsQuiet, >>=-IsQuiet,
}
use docker_jenkins_orchestra.World.{Action, World, ok, lift-ok, ◌>>=◌}

-- The item of the queue has become a build that has ended, or has been cancelled.
abbrev pub ItemEnded : Jenkins → Option ℕ × Bool → Type 0
ItemEnded jenkins (some number, cancelled) = jenkins.is_build_terminal number ≡ ok true
ItemEnded jenkins (none, cancelled) = cancelled ≡ true

-- Nothing runs in Jenkins for a build with this queue address and build number.
abbrev pub HasEnded : Option Jenkins → Option String → Option ℕ → Type 0
HasEnded none url number = (has_text url ≡ false) × (number ≡ none)
HasEnded (some jenkins) url (some number) = jenkins.is_build_terminal number ≡ ok true
HasEnded (some jenkins) none none = Unit
HasEnded (some jenkins) (some url) none =
    (url ≡ "")
    ⊎ ((item : Option ℕ × Bool) × (jenkins.queue_item url ≡ ok item) × ItemEnded jenkins item)

conflict_if-ok :
    (b : Bool) (message : String) (w : World) → (conflict_if b message w).0 ≡ ok tt → b ≡ false
unfolding ◌>>=◌
conflict_if-ok true message w h = cc h
conflict_if-ok false message w h = refl

true_of_not : (b : Bool) → not b ≡ false → b ≡ true
true_of_not b h = ground arith

assert_build_ended-ok :
    (jenkins : Jenkins) (number : ℕ) (w : World)
    → (assert_build_ended jenkins number w).0 ≡ ok tt
    → jenkins.is_build_terminal number ≡ ok true
assert_build_ended-ok jenkins number w h =
    let (terminal, answer, rest) = lift-ok (jenkins.is_build_terminal number) _ w h in
    answer ∙ ap ok (true_of_not terminal (conflict_if-ok (not terminal) _ w rest))

assert_item_ended-ok :
    (jenkins : Jenkins) (item : Option ℕ × Bool) (w : World)
    → (assert_item_ended jenkins item w).0 ≡ ok tt
    → ItemEnded jenkins item
assert_item_ended-ok jenkins (some number, cancelled) w h = assert_build_ended-ok jenkins number w h
assert_item_ended-ok jenkins (none, cancelled) w h =
    true_of_not cancelled (conflict_if-ok (not cancelled) _ w h)

assert_execution-ok :
    (jenkins : Option Jenkins) (url : Option String) (number : Option ℕ) (w : World)
    → (assert_execution jenkins url number w).0 ≡ ok tt
    → HasEnded jenkins url number
assert_execution-ok none url none w h =
    let nothing = conflict_if-ok (has_text url || false) _ w h in (ground arith, refl)
assert_execution-ok none url (some number) w h =
    let nothing = conflict_if-ok (has_text url || true) _ w h in absurd (ground arith)
assert_execution-ok (some jenkins) url (some number) w h = assert_build_ended-ok jenkins number w h
assert_execution-ok (some jenkins) none none w h = tt
assert_execution-ok (some jenkins) (some url) none w h = elim (Bool-cases (url == "")) [
  | inl empty ↦ inl ((eq_iff url "").0 empty)
  | inr given ↦
      let (item, answer, rest) = lift-ok (jenkins.queue_item url) _ w (rw given at h) in
      inr (item, answer, assert_item_ended-ok jenkins item w rest)
]

pub assert_quiescent-ok :
    (jenkins : Option Jenkins) (build_id : String) (w : World) (build : BuildJob)
    (m : BuildResources)
    → lookup build_id w.repository.builds ≡ some build
    → lookup build_id w.repository.build_resources ≡ some m
    → (assert_quiescent jenkins build_id w).0 ≡ ok tt
    → (is_terminal build.status ≡ true)
      × (m.jenkins_trigger_pending ≡ true → has_text build.jenkins_queue_url ≡ true)
      × HasEnded jenkins build.jenkins_queue_url build.jenkins_build_number
unfolding assert_quiescent ◌>>=◌
assert_quiescent-ok jenkins build_id w build m stored known h =
    elim (Bool-cases (is_terminal build.status)) [
      | inr active ↦ cc (rw (stored, active) at h)
      | inl over ↦
          elim (Bool-cases (m.jenkins_trigger_pending && not (has_text build.jenkins_queue_url))) [
            | inl unknown ↦ cc (rw (stored, over, known, unknown) at h)
            | inr clear ↦ (
              over,
              λ pending. ground arith,
              assert_execution-ok jenkins build.jenkins_queue_url build.jenkins_build_number w
                  (rw (stored, over, known, clear) at h),
            )
          ]
    ]

conflict_if-IsQuiet : (b : Bool) (message : String) → IsQuiet (conflict_if b message)
conflict_if-IsQuiet true message = raise-IsQuiet _
conflict_if-IsQuiet false message = pure-IsQuiet tt

assert_build_ended-IsQuiet :
    (jenkins : Jenkins) (number : ℕ) → IsQuiet (assert_build_ended jenkins number)
assert_build_ended-IsQuiet jenkins number =
    >>=-IsQuiet (lift-IsQuiet (jenkins.is_build_terminal number))
      λ terminal. conflict_if-IsQuiet (not terminal) _

assert_item_ended-IsQuiet :
    (jenkins : Jenkins) (item : Option ℕ × Bool) → IsQuiet (assert_item_ended jenkins item)
assert_item_ended-IsQuiet jenkins (some number, cancelled) =
    assert_build_ended-IsQuiet jenkins number
assert_item_ended-IsQuiet jenkins (none, cancelled) = conflict_if-IsQuiet (not cancelled) _

pub if-IsQuiet {ℓ} :
    {A : Type ℓ} (b : Bool) {m n : Action A} → IsQuiet m → IsQuiet n → IsQuiet (if b then m else n)
if-IsQuiet true qm qn = qm
if-IsQuiet false qm qn = qn

assert_execution-IsQuiet :
    (jenkins : Option Jenkins) (url : Option String) (number : Option ℕ)
    → IsQuiet (assert_execution jenkins url number)
assert_execution-IsQuiet none url number = conflict_if-IsQuiet _ _
assert_execution-IsQuiet (some jenkins) url (some number) =
    assert_build_ended-IsQuiet jenkins number
assert_execution-IsQuiet (some jenkins) none none = pure-IsQuiet tt
assert_execution-IsQuiet (some jenkins) (some url) none =
    if-IsQuiet (has_text (some url))
      (>>=-IsQuiet (lift-IsQuiet (jenkins.queue_item url)) (assert_item_ended-IsQuiet jenkins))
      (pure-IsQuiet tt)

build_or_missing-IsQuiet : (o : Option BuildJob) → IsQuiet (build_or_missing o)
build_or_missing-IsQuiet none = raise-IsQuiet _
build_or_missing-IsQuiet (some build) = pure-IsQuiet build

pub assert_quiescent-IsQuiet :
    (jenkins : Option Jenkins) (build_id : String) → IsQuiet (assert_quiescent jenkins build_id)
unfolding assert_quiescent
assert_quiescent-IsQuiet jenkins build_id = >>=-IsQuiet get_repository-IsQuiet λ r.
    >>=-IsQuiet (build_or_missing-IsQuiet (lookup build_id r.builds)) λ build.
      >>=-IsQuiet (conflict_if-IsQuiet _ _) λ _.
        >>=-IsQuiet (conflict_if-IsQuiet _ _)
          λ _. assert_execution-IsQuiet jenkins build.jenkins_queue_url build.jenkins_build_number

-- ===== src/Services/Build/History.antt =====
-- What `transition` writes into the build: its stages, and its times.
use docker_jenkins_orchestra.Prelude.{
  ℕ, zero, suc, ◌-◌, ◌≤◌, ◌<◌, String, ◌≡◌, refl, ◌∙◌, inl, inr, true, some, List, [], ◌∷◌, ◌++◌,
  arith, nat_eq, string_eq, Bool-cases, ==-refl, option_eq, pair_eq, length, drop, length-drop,
}
use docker_jenkins_orchestra.Models.Build.{BuildStatus, BuildJob, is_terminal}
use docker_jenkins_orchestra.Repository.Builds.{BuildField, moved, update_build_fields}
use docker_jenkins_orchestra.Services.Build.{
  ends_with, known_history, last_32, next_history, stage_after, transition_fields,
}

ends_with-concat : (h : List String) (s : String) → ends_with (h ++ s ∷ []) s ≡ true
ends_with-concat [] s = ==-refl s
ends_with-concat (x ∷ []) s = ==-refl s
ends_with-concat (x ∷ (y ∷ h)) s = ends_with-concat (y ∷ h) s

ends_with-drop :
    (n : ℕ) (h : List String) (s : String) → n < length h → ends_with (drop n h) s ≡ ends_with h s
ends_with-drop zero h s lt = refl
ends_with-drop (suc n) [] s lt = absurd (omega arith)
ends_with-drop (suc n) (x ∷ []) s lt = absurd (omega arith)
ends_with-drop (suc n) (x ∷ (y ∷ h)) s lt = ends_with-drop n (y ∷ h) s (omega arith)

ends_with-pos : (h : List String) (s : String) → ends_with h s ≡ true → 0 < length h
ends_with-pos [] s e = cc
ends_with-pos (x ∷ h) s e = omega arith

ends_with-last_32 :
    (h : List String) (s : String) → ends_with h s ≡ true → ends_with (last_32 h) s ≡ true
unfolding last_32
ends_with-last_32 h s e =
    ends_with-drop (length h - 32) h s (omega (arith, ends_with-pos h s e)) ∙ e

length-last_32 : (h : List String) → length (last_32 h) ≤ 32
unfolding last_32
length-last_32 h = omega (arith, length-drop (length h - 32) h (omega arith))

pub ends_with-next_history : (b : BuildJob) (s : String) → ends_with (next_history b s) s ≡ true
unfolding next_history
ends_with-next_history b s = elim (Bool-cases (ends_with (known_history b) s)) [
  | inl old ↦ rw old (ends_with-last_32 (known_history b) s old)
  | inr new ↦
      rw new
        (ends_with-last_32 (known_history b ++ s ∷ []) s (ends_with-concat (known_history b) s))
]

pub length-next_history : (b : BuildJob) (s : String) → length (next_history b s) ≤ 32
unfolding next_history
length-next_history b s = length-last_32 _

pub update_build_fields-append :
    (xs ys : List BuildField) (b : BuildJob)
    → update_build_fields (xs ++ ys) b ≡ update_build_fields ys (update_build_fields xs b)
unfolding update_build_fields
update_build_fields-append [] ys b = refl
update_build_fields-append (x ∷ xs) ys b = update_build_fields-append xs ys _

module _ (b : BuildJob) (target : BuildStatus) (now : ℕ) (fields : List BuildField) where
  abbrev written : BuildJob
  written = moved target (transition_fields b target now fields) b

  pub stage-moved : written.stage ≡ some (stage_after target fields)
  unfolding moved transition_fields update_build_fields
  stage-moved = rw (update_build_fields-append fields) (ground arith)

  pub stage_history-moved : written.stage_history ≡ next_history b (stage_after target fields)
  unfolding moved transition_fields update_build_fields
  stage_history-moved = rw (update_build_fields-append fields) (ground arith)

  pub finished_at-moved : is_terminal target ≡ true → written.finished_at ≡ some now
  unfolding moved transition_fields update_build_fields
  finished_at-moved h = rw (update_build_fields-append fields) (ground arith)

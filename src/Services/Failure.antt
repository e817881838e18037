-- ===== src/Services/Failure.antt =====
-- `BuildService.fail` of orchestrator/services.py: a failed build and its alert.
pub mod Outcome
pub mod Overtaken
use Prim.Native.String.{[] as no_chars, ◌∷◌ as ◌∷ₛ◌}
use docker_jenkins_orchestra.Prelude.{
  ℕ, zero, suc, ◌+◌, ◌-◌, ◌*◌, ◌/◌, ◌%◌, ◌^◌, ◌≤◌, ◌<◌, String, ◌≡◌, refl, sym, ap, ◌∙◌, ◌≢◌, ◌↔◌,
  ◌⊎◌, inl, inr, Bool, true, false, not, ◌&&◌, ◌||◌, Option, none, some, List, [], ◌∷◌, ◌++◌, map,
  arith, eq_iff, ltb, leb, nat_beq, if◌then◌else◌, nat_beq_iff, leb_iff, ltb_iff, Eq, ◌==◌, nat_eq,
  string_eq, concat, Bool-cases, Option-cases, is_some, ==-refl, option_eq, pair_eq, length, take,
  drop, all, any, length-append, length-take, length-drop, All, All-append,
}
use docker_jenkins_orchestra.Models.Value.{Value, str, truthy, get_key}
use docker_jenkins_orchestra.Models.Build.{failed, is_terminal, BuildJob, EventLevel}
use docker_jenkins_orchestra.Repository.State.{Repository}
use docker_jenkins_orchestra.Repository.Builds
use docker_jenkins_orchestra.Repository.Builds.{BuildField}
use docker_jenkins_orchestra.Services.Build.{get_build, record_event, transition}
use docker_jenkins_orchestra.World.{
  Action, pure, get_repository, put_repository, utc_now, uuid4, ◌>>=◌, ◌>>◌,
}

-- the keyword arguments of `fail`
pub record FailureReport : Type 0 where
  pub error_detail : Option Value
  pub raw_log_excerpt : Option String
  pub failure_logs : Option Value
  pub failure_site : Option String

abbrev pub when_given {ℓ κ} : {A : Type ℓ} {B : Type κ} → (A → B) → Option A → List B
when_given f none = []
when_given f (some a) = f a ∷ []

-- `text[:n]`
abbrev pub first_chars : ℕ → String → String
first_chars zero s = no_chars
first_chars (suc n) no_chars = no_chars
first_chars (suc n) (◌∷ₛ◌ c s) = ◌∷ₛ◌ c (first_chars n s)

abbrev pub non_empty : Option String → Option String
non_empty none = none
non_empty (some s) = if s == "" then none else some s

-- `text_of` is Python's `str` on a value of the error detail.
module _ (text_of : Value → String) where
  -- the site that the caller names, else the one in the error detail
  unfoldable pub site_of : FailureReport → Option String
  site_of report = elim report.failure_site [
    | some site ↦ some site
    | none ↦ elim report.error_detail [
      | none ↦ none
      | some detail ↦
          if truthy (get_key "failure_site" detail)
          then some (text_of (get_key "failure_site" detail))
          else none
    ]
  ]

  unfoldable pub failure_fields : String → FailureReport → List BuildField
  unfolding site_of
  failure_fields message report =
      BuildField.error message
      ∷ BuildField.stage "failed"
      ∷ (when_given BuildField.error_detail report.error_detail
          ++ (when_given BuildField.raw_log_excerpt report.raw_log_excerpt
              ++ (when_given BuildField.failure_logs report.failure_logs
                  ++ when_given BuildField.failure_site (site_of report))))

  unfoldable pub alert_details : FailureReport → BuildJob → List (String × Value)
  alert_details report build =
      when_given (λ v. ("error_detail", v)) report.error_detail
      ++ (when_given (λ s. ("raw_log_excerpt_preview", str (first_chars 500 s)))
            report.raw_log_excerpt
          ++ (when_given (λ v. ("failure_logs_source", get_key "source" v)) report.failure_logs
              ++ (when_given (λ s. ("failure_site", str s)) (non_empty build.failure_site)
                  ++ when_given (λ s. ("stage", str s)) (non_empty build.stage))))

  unfoldable pub raise_alert : String → FailureReport → BuildJob → Action BuildJob
  raise_alert message report build = do
    alert_id ← uuid4
    created_at ← utc_now
    r ← get_repository
    put_repository (
        Builds.create_alert
          (record {
            alert_id = alert_id;
            appid = build.appid;
            build_id = some build.build_id;
            severity = "error";
            message = message;
            resolved_at = none;
            created_at = created_at;
          })
          r)
    record_event build.appid (some build.build_id) "build.alert" message EventLevel.error
        (alert_details report build)
    pure build

  -- `fail` after it has read the build
  unfoldable pub fail_from :
      (Repository → Repository) → String → String → FailureReport → BuildJob → Action BuildJob
  fail_from others build_id message report build =
      if is_terminal build.status then pure build else (do
        updated ← transition others build_id failed (failure_fields message report)
        raise_alert message report updated)

  unfoldable pub fail :
      (Repository → Repository) → String → String → FailureReport → Action BuildJob
  fail others build_id message report = do
    build ← get_build build_id
    fail_from others build_id message report build

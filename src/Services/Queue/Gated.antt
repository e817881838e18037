-- ===== src/Services/Queue/Gated.antt =====
-- No build is queued without a static check that has passed.
use docker_jenkins_orchestra.Prelude.{
  ℕ, String, ◌≡◌, refl, sym, ap, ◌∙◌, ◌≢◌, inl, inr, true, Option, none, some, nat_eq, string_eq,
  Bool-cases, Option-cases, option_eq, pair_eq, &&-both,
}
use docker_jenkins_orchestra.Prelude.Dict.{lookup}
use docker_jenkins_orchestra.Models.App.{UserAppRecord}
use docker_jenkins_orchestra.Models.Build.{BuildJob}
use docker_jenkins_orchestra.Models.RouteCheck.{RouteCheckResult, StaticStatus, static_status_eq}
use docker_jenkins_orchestra.Repository.RouteChecks.{find_route_check}
use docker_jenkins_orchestra.RouteChecks.{given}
use docker_jenkins_orchestra.RouteChecks.Commit.{ResolveRef, resolve_commit}
use docker_jenkins_orchestra.RouteChecks.Gate.{is_pass, require_static_pass}
use docker_jenkins_orchestra.RouteChecks.Gate.Sound.{require-ok, given-some, is_pass-true}
use docker_jenkins_orchestra.Services.Queue.{
  get_record, has_services, input_error, admit, Surroundings,
}
use docker_jenkins_orchestra.Services.Queue.Prepare.{admitted, queue_build}
use docker_jenkins_orchestra.World.{
  Action, World, Result, ok, err, Error, attempt, handle, ◌>>=◌, >>=-ok, pure-ok, raise-ok, lift-ok,
}

-- The check that a build of an application was admitted by.
pub record Admission (given_by : Surroundings) (appid : String) (git_ref : Option String)
    (w : World) : Type 0 where
  pub app : UserAppRecord
  pub gitlab : Option ResolveRef
  pub commit : String
  pub route : String
  pub version : ℕ
  pub check : RouteCheckResult
  pub of_app : lookup appid w.repository.apps ≡ some app
  pub with_services : has_services app.compose ≡ true
  pub of_route : app.require_route ≡ some route
  pub with_checks : given_by.route_checks ≡ some gitlab
  pub resolved : resolve_commit gitlab app git_ref ≡ ok commit
  pub stored : find_route_check (app.appid, (commit, (route, version))) w.repository ≡ some check
  pub passed : check.static_check_passed ≡ some true
  pub succeeded : check.static_status ≡ StaticStatus.succeeded

input_error-raises {ℓ} : {A : Type ℓ} (e : Error) (a : A) (w : World) → (input_error e w).0 ≢ ok a
input_error-raises (Error.route_check_input m) a w h = raise-ok _ a w h
input_error-raises e a w h = raise-ok e a w h

attempt-ok {ℓ} :
    {A : Type ℓ} (m : Action A) (a : A) (w : World)
    → (attempt m input_error w).0 ≡ ok a
    → (m w).0 ≡ ok a
unfolding attempt
attempt-ok {A} m a w h = by_result (m w) h
  where
    by_result : (p : Result A × World) → (handle p.0 input_error p.1).0 ≡ ok a → p.0 ≡ ok a
    by_result (ok b, v) k = k
    by_result (err e, v) k = absurd (input_error-raises e a v k)

admit-ok :
    (gitlab : Option ResolveRef) (app : UserAppRecord) (git_ref : Option String) (commit : String)
    (check : RouteCheckResult) (w : World)
    → (admit gitlab app git_ref w).0 ≡ ok (commit, check)
    → (resolve_commit gitlab app git_ref ≡ ok commit)
      × ((require_static_pass app commit none w).0 ≡ ok check)
unfolding admit
admit-ok gitlab app git_ref commit check w h =
    let (c, resolved, h1) = lift-ok (resolve_commit gitlab app git_ref) _ w h in
    let (checked, required, h2, _) = >>=-ok (require_static_pass app c none) _ w h1 in
    let same : (c, checked) ≡ (commit, check) = pure-ok _ _ _ h2 in
    let same_commit : c ≡ commit = ap (λ (p : String × RouteCheckResult). p.0) same in
    let same_check : checked ≡ check = ap (λ (p : String × RouteCheckResult). p.1) same in
    (
      resolved ∙ ap ok same_commit,
      ap (λ (k : String). (require_static_pass app k none w).0) (sym same_commit)
          ∙ required
          ∙ ap ok same_check,
    )

get_record-bind_found {ℓ} :
    {B : Type ℓ} (appid : String) (f : UserAppRecord → Action B) (w : World) (app : UserAppRecord)
    → lookup appid w.repository.apps ≡ some app
    → (get_record appid >>= f) w ≡ f app w
unfolding get_record ◌>>=◌
get_record-bind_found appid f w app h = rw h refl

get_record-bind_missing {ℓ} :
    {B : Type ℓ} (appid : String) (f : UserAppRecord → Action B) (w : World) (b : B)
    → lookup appid w.repository.apps ≡ none
    → ((get_record appid >>= f) w).0 ≢ ok b
unfolding get_record ◌>>=◌
get_record-bind_missing appid f w b h e =
    let bad : err (Error.not_found "App not found") ≡ ok b = rw h at e in cc bad

module _ (given_by : Surroundings) (appid : String) (git_ref : Option String) where
  admitted-Admission :
      (app : UserAppRecord) (checks : Option (Option ResolveRef)) (route : Option String)
      (build : BuildJob) (w : World)
      → lookup appid w.repository.apps ≡ some app
      → has_services app.compose ≡ true
      → given_by.route_checks ≡ checks
      → given app.require_route ≡ route
      → (admitted given_by appid git_ref app checks route w).0 ≡ ok build
      → Admission given_by appid git_ref w
  unfolding require_static_pass
  admitted-Admission app none route build w known served configured at_route h =
      absurd (raise-ok _ build w h)
  admitted-Admission app (some gitlab) none build w known served configured at_route h =
      absurd (raise-ok _ build w h)
  admitted-Admission app (some gitlab) (some route) build w known served configured at_route h =
      let ((commit, check), attempted, _, _) =
        >>=-ok (attempt (admit gitlab app git_ref) input_error) _ w h in
      let (resolved, required) =
        admit-ok gitlab app git_ref commit check w
          (attempt-ok (admit gitlab app git_ref) (commit, check) w attempted) in
      let (found_route, version, same_route, stored, passed, _) =
        require-ok app commit none (given app.require_route) check w required in
      let (pass, finished) = &&-both (is_pass check.static_check_passed) _ passed in
      record {
        app = app;
        gitlab = gitlab;
        commit = commit;
        route = found_route;
        version = version;
        check = check;
        of_app = known;
        with_services = served;
        of_route = given-some app.require_route found_route same_route;
        with_checks = configured;
        resolved = resolved;
        stored = stored;
        passed = is_pass-true check.static_check_passed pass;
        succeeded =
            (static_status_eq.beq_iff check.static_status StaticStatus.succeeded).0 finished;
      }

  -- When a build is queued, then before it, the application was stored, with services and a route;
  -- the reference resolved to a commit; and a check of that commit and route was stored that had
  -- passed and succeeded.
  pub queue_build_gated :
      (build : BuildJob) (w : World)
      → (queue_build given_by appid git_ref w).0 ≡ ok build
      → Admission given_by appid git_ref w
  unfolding queue_build
  queue_build_gated build w h = elim (Option-cases (lookup appid w.repository.apps)) [
    | inl missing ↦ absurd (get_record-bind_missing appid _ w build missing h)
    | inr (app, known) ↦
        let found = get_record-bind_found appid _ w app known in
        let h1 = sym (ap (λ (p : Result BuildJob × World). p.0) found) ∙ h in
        elim (Bool-cases (has_services app.compose)) [
          | inl served ↦
              let h2 : (admitted given_by appid git_ref app given_by.route_checks
                    (given app.require_route) w).0
                  ≡ ok build =
                rw served at h1 in
              admitted-Admission app given_by.route_checks (given app.require_route) build w known
                served refl refl h2
          | inr bare ↦ let refused = rw bare at h1 in absurd (raise-ok _ build w refused)
        ]
  ]

-- ===== src/RouteChecks/Gate/Sound.antt =====
-- What the gate of a build lets through.
use docker_jenkins_orchestra.Prelude.{
  ℕ, String, ◌≡◌, refl, sym, ap, ◌∙◌, inl, inr, Bool, true, false, ◌&&◌, Option, none, some, [],
  ◌∷◌, arith, if◌then◌else◌, nat_beq_iff, ◌==◌, nat_eq, string_eq, Bool-cases, is_some, option_eq,
  pair_eq, &&-both,
}
use docker_jenkins_orchestra.Prelude.Dict.{Dict}
use docker_jenkins_orchestra.Models.App.{UserAppRecord, AgentRole}
use docker_jenkins_orchestra.Models.Build.{BuildJob}
use docker_jenkins_orchestra.Models.RouteCheck.{RouteCheckResult, StaticStatus, static_status_eq}
use docker_jenkins_orchestra.Repository.RouteChecks.{
  RouteKey, route_key, first_match, find_route_check,
}
use docker_jenkins_orchestra.RouteChecks.{
  get_agent_role, get_role, or_no_role, given, static_role_key,
}
use docker_jenkins_orchestra.World.{
  World, Result, ok, pure, ◌>>=◌, get_repository-bind, >>=-ok, raise-ok,
}
use docker_jenkins_orchestra.RouteChecks.Gate.{
  gate_closed, is_generation, is_pass, has_passed, passed_or_closed, require_for_route,
  require_static_pass, is_admissible, is_same_check, verify_commit, verify_build_gate,
}

-- A stored check that a build of a commit relies on.
pub record Passed (build : BuildJob) (app : UserAppRecord) (check : RouteCheckResult) (w : World)
    : Type 0 where
  pub commit : String
  pub route : String
  pub of_commit : build.git_commit_sha ≡ some commit
  pub of_route : app.require_route ≡ some route
  pub stored : find_route_check (route_key check) w.repository ≡ some check
  pub same_app : check.app_id ≡ app.appid
  pub same_commit : check.commit_id ≡ commit
  pub same_route : check.require_route ≡ route
  pub same_version : build.static_agent_role_version ≡ some check.static_agent_role_version
  pub same_check : build.route_check_id ≡ some check.check_id
  pub same_generation : build.route_check_generation ≡ some check.generation
  pub passed : check.static_check_passed ≡ some true
  pub succeeded : check.static_status ≡ StaticStatus.succeeded

-- A check that is found stands under the key that was looked for.
first_match-key :
    (key : RouteKey) (checks : Dict String RouteCheckResult) (check : RouteCheckResult)
    → first_match key checks ≡ some check
    → route_key check ≡ key
first_match-key key [] check h = cc h
first_match-key key ((k, c) ∷ checks) check h = elim (Bool-cases (route_key c == key)) [
  | inl same ↦
      let e : some c ≡ some check = rw same at h in
      let found : c ≡ check = cc e in
      sym (ap route_key found) ∙ (pair_eq.beq_iff (route_key c) key).0 same
  | inr other ↦
      let e : first_match key checks ≡ some check = rw other at h in
      first_match-key key checks check e
]

pub given-some : (o : Option String) (s : String) → given o ≡ some s → o ≡ some s
given-some none s h = cc h
given-some (some t) s h = elim (Bool-cases (t == "")) [
  | inl empty ↦ let bad : none ≡ some s = rw empty at h in cc bad
  | inr full ↦ let same : some t ≡ some s = rw full at h in same
]

if-ok :
    (b : Bool) (check c : RouteCheckResult) (w : World)
    → ((if b then pure check else gate_closed) w).0 ≡ ok c
    → (b ≡ true) × (check ≡ c)
unfolding ◌>>=◌
if-ok true check c w h = (refl, cc h)
if-ok false check c w h = cc h

get_role-unchanged : (key : String) (w : World) → (get_role key w).1 ≡ w
unfolding get_role ◌>>=◌
get_role-unchanged key w = by_role (get_agent_role key w.repository)
  where
    by_role : (o : Option AgentRole) → (or_no_role o w).1 ≡ w
    by_role none = refl
    by_role (some role) = refl

passed_or_closed-ok :
    (generation : Option ℕ) (o : Option RouteCheckResult) (c : RouteCheckResult) (w : World)
    → (passed_or_closed generation o w).0 ≡ ok c
    → (o ≡ some c) × (has_passed c ≡ true) × (is_generation generation c.generation ≡ true)
passed_or_closed-ok generation none c w h = absurd (raise-ok _ c w h)
passed_or_closed-ok generation (some check) c w h =
    let (good, same) =
      if-ok (has_passed check && is_generation generation check.generation) check c w h in
    let (passed, current) = &&-both (has_passed check) _ good in
    rw (sym same) (refl, passed, current)

-- What a check that is required looks like.
pub require-ok :
    (app : UserAppRecord) (commit : String) (generation : Option ℕ) (o : Option String)
    (c : RouteCheckResult) (w : World)
    → (require_for_route app commit generation o w).0 ≡ ok c
    → (route : String) × (version : ℕ) × (o ≡ some route)
      × (find_route_check (app.appid, (commit, (route, version))) w.repository ≡ some c)
      × (has_passed c ≡ true)
      × (is_generation generation c.generation ≡ true)
require-ok app commit generation none c w h = absurd (raise-ok _ c w h)
require-ok app commit generation (some route) c w h =
    let (role, _, h1, _) = >>=-ok (get_role static_role_key) _ w h in
    let v = (get_role static_role_key w).1 in
    let key : RouteKey = (app.appid, (commit, (route, role.agent_role_version))) in
    let h2 : (passed_or_closed generation (find_route_check key v.repository) v).0 ≡ ok c =
      sym (ap (λ (p : Result RouteCheckResult × World). p.0) (get_repository-bind _ v)) ∙ h1 in
    let (found, passed, current) =
      passed_or_closed-ok generation (find_route_check key v.repository) c v h2 in
    let same : find_route_check key w.repository ≡ find_route_check key v.repository =
      ap (λ (u : World). find_route_check key u.repository)
        (sym (get_role-unchanged static_role_key w)) in
    (route, role.agent_role_version, refl, same ∙ found, passed, current)

pub is_pass-true : (o : Option Bool) → is_pass o ≡ true → o ≡ some true
is_pass-true (some true) h = refl
is_pass-true (some false) h = cc h
is_pass-true none h = cc h

is_generation-some :
    (o : Option ℕ) (n : ℕ) → is_some o ≡ true → is_generation o n ≡ true → o ≡ some n
is_generation-some none n h k = cc h
is_generation-some (some m) n h k = ap some (sym ((nat_beq_iff n m).0 k))

verify_commit-Passed :
    (build : BuildJob) (app : UserAppRecord) (o : Option String) (check : RouteCheckResult)
    (w : World)
    → o ≡ given build.git_commit_sha
    → is_some build.route_check_generation ≡ true
    → (verify_commit build app o w).0 ≡ ok check
    → Passed build app check w
unfolding require_static_pass find_route_check
verify_commit-Passed build app none check w e g h = absurd (raise-ok _ check w h)
verify_commit-Passed build app (some commit) check w e g h =
    let (c, required, h1, _) =
      >>=-ok (require_static_pass app commit build.route_check_generation) _ w h in
    let (same, same_c) = if-ok (is_same_check build c) c check _ h1 in
    let (route, version, at_route, found, passed, current) =
      require-ok app commit build.route_check_generation (given app.require_route) c w required in
    let key : RouteKey = (app.appid, (commit, (route, version))) in
    let at_key : route_key c ≡ key = first_match-key key w.repository.route_checks c found in
    let (same_id, same_role) = &&-both (build.route_check_id == some c.check_id) _ same in
    let (pass, finished) = &&-both (is_pass c.static_check_passed) _ passed in
    let all_of_c : Passed build app c w = record {
      commit = commit;
      route = route;
      of_commit = given-some build.git_commit_sha commit (sym e);
      of_route = given-some app.require_route route at_route;
      stored = ap (λ (k : RouteKey). find_route_check k w.repository) at_key ∙ found;
      same_app = ap (λ (k : RouteKey). k.0) at_key;
      same_commit = ap (λ (k : RouteKey). k.1.0) at_key;
      same_route = ap (λ (k : RouteKey). k.1.1.0) at_key;
      same_version = (option_eq.beq_iff build.static_agent_role_version _).0 same_role;
      same_check = (option_eq.beq_iff build.route_check_id _).0 same_id;
      same_generation = is_generation-some build.route_check_generation c.generation g current;
      passed = is_pass-true c.static_check_passed pass;
      succeeded = (static_status_eq.beq_iff c.static_status StaticStatus.succeeded).0 finished;
    } in
    rw (sym same_c) all_of_c

-- When the gate lets a build of an application through, the check that it returns is stored; it is
-- the application's check of the build's commit and of the application's route; it has the
-- identifier, the role version and the generation that the build carries; it has passed, and its
-- run has succeeded.
pub verify_build_gate_sound :
    (build : BuildJob) (app : UserAppRecord) (check : RouteCheckResult) (w : World)
    → (verify_build_gate build app w).0 ≡ ok check
    → Passed build app check w
unfolding verify_build_gate
verify_build_gate_sound build app check w h = elim (Bool-cases (is_admissible build app)) [
  | inl admissible ↦
      let opened : (verify_commit build app (given build.git_commit_sha) w).0 ≡ ok check =
        rw admissible at h in
      verify_commit-Passed build app (given build.git_commit_sha) check w refl (ground arith) opened
  | inr refused ↦
      let closed : (gate_closed w).0 ≡ ok check = rw refused at h in
      absurd (raise-ok _ check w closed)
]

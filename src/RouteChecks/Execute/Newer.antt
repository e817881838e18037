-- ===== src/RouteChecks/Execute/Newer.antt =====
-- A run of a static check never overwrites what a newer run has stored.
use docker_jenkins_orchestra.Prelude.{
  ℕ, String, ◌≡◌, refl, ap, ◌∙◌, ◌≢◌, ◌⊎◌, inl, inr, Bool, true, false, ◌&&◌, Option, none, some,
  List, [], ◌∷◌, nat_beq_iff, ◌==◌, nat_eq, string_eq, option_eq, pair_eq, all,
}
use docker_jenkins_orchestra.Prelude.Dict.{lookup}
use docker_jenkins_orchestra.Models.Value.{Value}
use docker_jenkins_orchestra.Models.RouteCheck.{RouteCheckResult, StaticStatus, static_status_eq}
use docker_jenkins_orchestra.Repository.State.{Repository}
use docker_jenkins_orchestra.Repository.RouteChecks.{
  CheckField, CheckExpectation, update_route_check, check_meets,
}
use docker_jenkins_orchestra.RouteChecks.Execute.{
  StaticRun, inspect, run_static, save_static, static_failure,
}
use docker_jenkins_orchestra.World.{
  Action, World, Result, ok, err, Error, pure, attempt, handle, ◌>>=◌,
}

-- Another run, or another generation, stands in the repository.
abbrev pub IsNewer : RouteCheckResult → RouteCheckResult → Type 0
IsNewer newer owned =
    (newer.generation ≢ owned.generation) ⊎ (newer.static_run_token ≢ owned.static_run_token)

is-false {ℓ} : {P : Type ℓ} (b : Bool) → (b ≡ true → P) → (P → ⊥) → b ≡ false
is-false true f refute = absurd (refute (f refl))
is-false false f refute = refl

second-false : (a b c : Bool) → b ≡ false → (a && (b && c)) ≡ false
second-false true b c h = rw h refl
second-false false b c h = refl

not_met :
    (newer owned : RouteCheckResult) (rest : List CheckExpectation)
    → IsNewer newer owned
    → all (check_meets newer) (
        CheckExpectation.generation_is owned.generation
        ∷ CheckExpectation.static_run_token_is owned.static_run_token
        ∷ rest)
      ≡ false
not_met newer owned rest (inl other) =
    rw
      (is-false (newer.generation == owned.generation)
        (λ h. (nat_beq_iff newer.generation owned.generation).0 h) other)
      refl
not_met newer owned rest (inr other) = second-false (newer.generation == owned.generation) _ _ (
    is-false (newer.static_run_token == owned.static_run_token)
      (λ h. (option_eq.beq_iff newer.static_run_token owned.static_run_token).0 h) other)

save_static-keeps :
    (owned newer : RouteCheckResult) (fields : Option (List CheckField)) (w : World)
    → IsNewer newer owned
    → lookup owned.check_id w.repository.route_checks ≡ some newer
    → ((save_static owned fields w).0 ≡ ok "superseded")
      × ((save_static owned fields w).1.repository ≡ w.repository)
unfolding save_static update_route_check ◌>>=◌
save_static-keeps owned newer none w h held = (refl, refl)
save_static-keeps owned newer (some fields) w h held =
    let refused =
      not_met newer owned (CheckExpectation.static_status_is StaticStatus.running ∷ []) h in
    rw held (rw refused (refl, refl))

-- A run always comes to an answer: what it raises is turned into a result.
static_failure-ok :
    (e : Error) (w : World)
    → (fields : Option (List CheckField)) × (static_failure e w ≡ (ok fields, w))
unfolding ◌>>=◌
static_failure-ok (Error.key_error m) w = (none, refl)
static_failure-ok (Error.route_check_conflict m) w = (none, refl)
static_failure-ok (Error.adapter_error m) w = (_, refl)
static_failure-ok (Error.route_check_input m) w = (_, refl)
static_failure-ok e w = (_, refl)

attempt-ok :
    (m : Action (Option (List CheckField))) (w : World)
    → (fields : Option (List CheckField)) × (v : World) × (attempt m static_failure w
        ≡ (ok fields, v))
unfolding attempt
attempt-ok m w = by_result (m w)
  where
    by_result :
        (p : Result (Option (List CheckField)) × World)
        → (fields : Option (List CheckField)) × (v : World) × (handle p.0 static_failure p.1
            ≡ (ok fields, v))
    by_result (ok fields, v) = (fields, v, refl)
    by_result (err e, v) = let (fields, same) = static_failure-ok e v in (fields, v, same)

-- Of a run that holds a check, whatever it meets outside: when another run or another generation of
-- the check is stored by the time that it saves its result, then it answers that it is superseded,
-- and that other check is what is stored afterwards.
pub run_static_keeps_newer :
    (validate_probe_payload : Value → String → Result Value) (lease_seconds : ℕ) (run : StaticRun)
    (check_id : String) (owned newer : RouteCheckResult) (w : World)
    → ((r : Repository) → lookup owned.check_id (run.others_after r).route_checks ≡ some newer)
    → IsNewer newer owned
    → let after = run_static validate_probe_payload lease_seconds run check_id (some owned) w in
      (after.0 ≡ ok "superseded")
      × (lookup owned.check_id after.1.repository.route_checks ≡ some newer)
unfolding ◌>>=◌
run_static_keeps_newer validate seconds run check_id owned newer w held h =
    let (fields, v, answered) =
      attempt-ok (inspect validate seconds run owned >>= λ found. pure (some found)) w in
    let later = record v { repository = run.others_after v.repository } in
    let (said, kept) = save_static-keeps owned newer fields later h (held v.repository) in
    rw answered
      (said, ap (λ (r : Repository). lookup owned.check_id r.route_checks) kept ∙ held v.repository)

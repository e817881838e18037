-- ===== src/Repository/RouteChecks/Sequences.antt =====
-- Any sequence of calls on the route checks keeps their identities apart.
use docker_jenkins_orchestra.Prelude.{
  ℕ, String, ◌≡◌, refl, sym, ap, ◌∙◌, inl, inr, some, List, [], ◌∷◌, nat_eq, string_eq, Bool-cases,
  Option-cases, option_eq, pair_eq, all,
}
use docker_jenkins_orchestra.Prelude.Dict.{Dict, lookup, insert}
use docker_jenkins_orchestra.Models.RouteCheck.{RouteCheckResult}
use docker_jenkins_orchestra.Repository.RouteChecks.{
  RouteKey, route_key, CheckField, CheckExpectation, set_check_field, update_check_fields,
  check_meets, update_route_check, delete_route_check, ensure_route_check, save_route_check,
}
use docker_jenkins_orchestra.Repository.RouteChecks.Unique.{
  Apart, lookup-Entry, Apart-without_key, Apart-insert,
}
use docker_jenkins_orchestra.Repository.RouteChecks.Calls.{ensure-Apart, save-Apart}
use docker_jenkins_orchestra.World.{World, ◌>>=◌}

-- what an update must not change
abbrev identity_of : RouteCheckResult → String × (RouteKey × ℕ)
identity_of c = (c.check_id, (route_key c, c.id))

set_check_field-identity :
    (f : CheckField) (c : RouteCheckResult) → identity_of (set_check_field f c) ≡ identity_of c
unfolding set_check_field
set_check_field-identity (CheckField.dynamic_agent_role_version _) c = refl
set_check_field-identity (CheckField.generation _) c = refl
set_check_field-identity (CheckField.repository_url _) c = refl
set_check_field-identity (CheckField.git_ref _) c = refl
set_check_field-identity (CheckField.static_role_snapshot _) c = refl
set_check_field-identity (CheckField.dynamic_role_snapshot _) c = refl
set_check_field-identity (CheckField.static_task_id _) c = refl
set_check_field-identity (CheckField.static_run_token _) c = refl
set_check_field-identity (CheckField.dispatch_error _) c = refl
set_check_field-identity (CheckField.dynamic_build_id _) c = refl
set_check_field-identity (CheckField.dynamic_run_id _) c = refl
set_check_field-identity (CheckField.static_report_text _) c = refl
set_check_field-identity (CheckField.dynamic_report_text _) c = refl
set_check_field-identity (CheckField.static_lease_expires_at _) c = refl
set_check_field-identity (CheckField.static_status _) c = refl
set_check_field-identity (CheckField.dynamic_status _) c = refl
set_check_field-identity (CheckField.diff_list _) c = refl
set_check_field-identity (CheckField.probe_payload _) c = refl
set_check_field-identity (CheckField.probe_result _) c = refl
set_check_field-identity (CheckField.static_check_passed _) c = refl
set_check_field-identity (CheckField.dynamic_check_passed _) c = refl
set_check_field-identity (CheckField.created_at _) c = refl
set_check_field-identity (CheckField.updated_at _) c = refl

update_check_fields-identity :
    (fields : List CheckField) (c : RouteCheckResult)
    → identity_of (update_check_fields fields c) ≡ identity_of c
unfolding update_check_fields
update_check_fields-identity [] c = refl
update_check_fields-identity (f ∷ fields) c =
    update_check_fields-identity fields (set_check_field f c) ∙ set_check_field-identity f c

-- a check may be replaced by one of its identity
replace-Apart :
    (k : String) (current updated : RouteCheckResult) (checks : Dict String RouteCheckResult)
    → Apart checks
    → lookup k checks ≡ some current
    → identity_of updated ≡ identity_of current
    → Apart (insert k updated checks)
replace-Apart k current updated checks apart held same =
    let there = lookup-Entry k current checks held in
    let name : updated.check_id ≡ k = ap (λ i. i.0) same ∙ apart.own k current there in
    rw (sym name) (
      Apart-insert updated checks apart
        (λ j b l e. apart.one_key j k b current l there (e ∙ ap (λ i. i.1.0) same) ∙ sym name)
        (λ j b l e. apart.one_id j k b current l there (e ∙ ap (λ i. i.1.1) same) ∙ sym name))

update-Apart :
    (k : String) (fields : List CheckField) (expected : List CheckExpectation) (w : World)
    → Apart w.repository.route_checks
    → Apart (update_route_check k fields expected w).1.repository.route_checks
unfolding update_route_check ◌>>=◌
update-Apart k fields expected w apart =
    let checks = w.repository.route_checks in
    elim (Option-cases (lookup k checks)) [
      | inl absent ↦ rw absent apart
      | inr (current, held) ↦ elim (Bool-cases (all (check_meets current) expected)) [
        | inr refused ↦ rw held (rw refused apart)
        | inl met ↦ rw held (
            rw met (
              replace-Apart k current _ checks apart held (
                update_check_fields-identity (CheckField.updated_at (w.clock w.ticks) ∷ fields)
                  current)))
      ]
    ]

delete-Apart :
    (key : RouteKey) (w : World)
    → Apart w.repository.route_checks
    → Apart (delete_route_check key w).1.repository.route_checks
unfolding delete_route_check ◌>>=◌
delete-Apart key w apart = Apart-without_key key w.repository.route_checks apart

-- One locked call on the route checks.
pub data CheckCall : Type 0 where
  ensure save : RouteCheckResult → CheckCall
  update : String → List CheckField → List CheckExpectation → CheckCall
  delete : RouteKey → CheckCall

unfoldable pub perform : CheckCall → World → World
perform (ensure c) w = (ensure_route_check c w).1
perform (save c) w = (save_route_check c w).1
perform (update k fields expected) w = (update_route_check k fields expected w).1
perform (delete key) w = (delete_route_check key w).1

perform-Apart :
    (call : CheckCall) (w : World)
    → Apart w.repository.route_checks
    → Apart (perform call w).repository.route_checks
unfolding perform
perform-Apart (ensure c) w apart = ensure-Apart c w apart
perform-Apart (save c) w apart = save-Apart c w apart
perform-Apart (update k fields expected) w apart = update-Apart k fields expected w apart
perform-Apart (delete key) w apart = delete-Apart key w apart

unfoldable pub perform_all : List CheckCall → World → World
perform_all [] w = w
perform_all (call ∷ calls) w = perform_all calls (perform call w)

-- Whatever calls are made on the route checks, in any order and whether they are granted or
-- refused: if every check stood under its own identifier and no two had one route key or one number
-- before, that is so afterwards.
pub perform_all-Apart :
    (calls : List CheckCall) (w : World)
    → Apart w.repository.route_checks
    → Apart (perform_all calls w).repository.route_checks
unfolding perform_all
perform_all-Apart [] w apart = apart
perform_all-Apart (call ∷ calls) w apart =
    perform_all-Apart calls (perform call w) (perform-Apart call w apart)

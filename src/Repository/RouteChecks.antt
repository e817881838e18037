-- ===== src/Repository/RouteChecks.antt =====
-- The route checks of `InMemoryRepository`: at most one check for each application, commit, route
-- and role version.
pub mod Unique
pub mod Calls
pub mod Sequences
use docker_jenkins_orchestra.Prelude.{
  ℕ, zero, suc, ◌+◌, ◌-◌, ◌*◌, ◌/◌, ◌%◌, ◌^◌, ◌≤◌, ◌<◌, String, ◌≡◌, refl, sym, ap, ◌∙◌, ◌≢◌, ◌↔◌,
  ◌⊎◌, inl, inr, Bool, true, false, not, ◌&&◌, ◌||◌, Option, none, some, List, [], ◌∷◌, ◌++◌, map,
  arith, eq_iff, ltb, leb, nat_beq, if◌then◌else◌, nat_beq_iff, leb_iff, ltb_iff, Eq, ◌==◌, nat_eq,
  string_eq, concat, Bool-cases, Option-cases, is_some, ==-refl, option_eq, pair_eq, length, take,
  drop, all, any, length-append, length-take, length-drop, All, All-append,
}
use docker_jenkins_orchestra.Prelude.Dict.{Dict, lookup, insert, values}
use docker_jenkins_orchestra.Models.Value.{Value}
use docker_jenkins_orchestra.Models.RouteCheck.{
  RouteCheckResult, StaticStatus, CheckDynamicStatus, static_status_eq,
}
use docker_jenkins_orchestra.Repository.State.{Repository}
use docker_jenkins_orchestra.World.{
  Action, Error, pure, raise, get_repository, put_repository, utc_now, ◌>>=◌, ◌>>◌,
}

-- app_id, commit_id, require_route, static_agent_role_version
abbrev pub RouteKey : Type 0
RouteKey = String × (String × (String × ℕ))

-- `_route_check_key`
abbrev pub route_key : RouteCheckResult → RouteKey
route_key c = (c.app_id, (c.commit_id, (c.require_route, c.static_agent_role_version)))

-- equality of `_route_check_identity`
abbrev pub same_identity : RouteCheckResult → RouteCheckResult → Bool
same_identity a b = a.check_id == b.check_id && route_key a == route_key b && a.id == b.id

abbrev pub first_match : RouteKey → Dict String RouteCheckResult → Option RouteCheckResult
first_match key [] = none
first_match key ((k, c) ∷ checks) = if route_key c == key then some c else first_match key checks

unfoldable pub find_route_check : RouteKey → Repository → Option RouteCheckResult
find_route_check key r = first_match key r.route_checks

abbrev pub id_taken : RouteCheckResult → Dict String RouteCheckResult → Bool
id_taken result [] = false
id_taken result ((k, c) ∷ checks) =
    (c.id == result.id && not (c.check_id == result.check_id)) || id_taken result checks

abbrev pub changes_identity : RouteCheckResult → Option RouteCheckResult → Bool
changes_identity result none = false
changes_identity result (some current) = not (same_identity current result)

-- the error of `_validate_route_check_identity`
abbrev pub identity_error : RouteCheckResult → Dict String RouteCheckResult → Option Error
identity_error result checks =
    if changes_identity result (lookup result.check_id checks)
    then some (Error.value_error "Route check identity is immutable")
    else if id_taken result checks
    then some (Error.repository_error "Duplicate route check id")
    else none

abbrev pub store_check : RouteCheckResult → Repository → Repository
store_check result r = record r { route_checks = insert result.check_id result r.route_checks }

abbrev pub store_valid : RouteCheckResult → Option Error → Action (Unit {0})
store_valid result (some e) = raise e
store_valid result none = do r ← get_repository; put_repository (store_check result r)

abbrev pub ensure_found :
    RouteCheckResult → Option RouteCheckResult → Action (RouteCheckResult × Bool)
ensure_found result (some existing) = pure (existing, false)
ensure_found result none = do
  r ← get_repository
  store_valid result (identity_error result r.route_checks)
  pure (result, true)

unfoldable pub ensure_route_check : RouteCheckResult → Action (RouteCheckResult × Bool)
ensure_route_check result = do
  r ← get_repository
  ensure_found result (find_route_check (route_key result) r)

-- `existing is not None and existing.check_id != result.check_id`
abbrev pub is_other : RouteCheckResult → Option RouteCheckResult → Bool
is_other result none = false
is_other result (some existing) = not (existing.check_id == result.check_id)

abbrev pub or_else : RouteCheckResult → Option RouteCheckResult → RouteCheckResult
or_else result none = result
or_else result (some existing) = existing

unfoldable pub save_route_check : RouteCheckResult → Action RouteCheckResult
save_route_check result = do
  r ← get_repository
  if changes_identity result (lookup result.check_id r.route_checks)
      then raise (Error.value_error "Route check identity is immutable")
      else (let existing = find_route_check (route_key result) r in
          if is_other result existing
          then pure (or_else result existing)
          else (do store_valid result (identity_error result r.route_checks); pure result))

-- One entry of the `fields` of an update; those of the identity are refused by the code.
pub data CheckField : Type 0 where
  dynamic_agent_role_version generation : ℕ → CheckField
  repository_url git_ref : String → CheckField
  static_role_snapshot dynamic_role_snapshot : Value → CheckField
  static_task_id static_run_token dispatch_error : Option String → CheckField
  dynamic_build_id dynamic_run_id : Option String → CheckField
  static_report_text dynamic_report_text : Option String → CheckField
  static_lease_expires_at : Option ℕ → CheckField
  static_status : StaticStatus → CheckField
  dynamic_status : CheckDynamicStatus → CheckField
  diff_list : List String → CheckField
  probe_payload probe_result : Option Value → CheckField
  static_check_passed dynamic_check_passed : Option Bool → CheckField
  created_at updated_at : ℕ → CheckField

unfoldable pub set_check_field : CheckField → RouteCheckResult → RouteCheckResult
set_check_field (CheckField.dynamic_agent_role_version n) c = record c {
  dynamic_agent_role_version = n;
}
set_check_field (CheckField.generation n) c = record c { generation = n }
set_check_field (CheckField.repository_url s) c = record c { repository_url = s }
set_check_field (CheckField.git_ref s) c = record c { git_ref = s }
set_check_field (CheckField.static_role_snapshot v) c = record c { static_role_snapshot = v }
set_check_field (CheckField.dynamic_role_snapshot v) c = record c { dynamic_role_snapshot = v }
set_check_field (CheckField.static_task_id o) c = record c { static_task_id = o }
set_check_field (CheckField.static_run_token o) c = record c { static_run_token = o }
set_check_field (CheckField.dispatch_error o) c = record c { dispatch_error = o }
set_check_field (CheckField.dynamic_build_id o) c = record c { dynamic_build_id = o }
set_check_field (CheckField.dynamic_run_id o) c = record c { dynamic_run_id = o }
set_check_field (CheckField.static_report_text o) c = record c { static_report_text = o }
set_check_field (CheckField.dynamic_report_text o) c = record c { dynamic_report_text = o }
set_check_field (CheckField.static_lease_expires_at o) c = record c { static_lease_expires_at = o }
set_check_field (CheckField.static_status s) c = record c { static_status = s }
set_check_field (CheckField.dynamic_status s) c = record c { dynamic_status = s }
set_check_field (CheckField.diff_list l) c = record c { diff_list = l }
set_check_field (CheckField.probe_payload o) c = record c { probe_payload = o }
set_check_field (CheckField.probe_result o) c = record c { probe_result = o }
set_check_field (CheckField.static_check_passed o) c = record c { static_check_passed = o }
set_check_field (CheckField.dynamic_check_passed o) c = record c { dynamic_check_passed = o }
set_check_field (CheckField.created_at t) c = record c { created_at = t }
set_check_field (CheckField.updated_at t) c = record c { updated_at = t }

unfoldable pub update_check_fields : List CheckField → RouteCheckResult → RouteCheckResult
unfolding set_check_field
update_check_fields [] c = c
update_check_fields (f ∷ fs) c = update_check_fields fs (set_check_field f c)

-- One entry of `expected`, of those that the callers give.
pub data CheckExpectation : Type 0 where
  generation_is : ℕ → CheckExpectation
  static_status_is : StaticStatus → CheckExpectation
  static_lease_expires_at_is : Option ℕ → CheckExpectation
  static_run_token_is dynamic_build_id_is dynamic_run_id_is : Option String → CheckExpectation

abbrev pub check_meets : RouteCheckResult → CheckExpectation → Bool
check_meets c (generation_is n) = c.generation == n
check_meets c (static_status_is s) = c.static_status == s
check_meets c (static_lease_expires_at_is o) = c.static_lease_expires_at == o
check_meets c (static_run_token_is o) = c.static_run_token == o
check_meets c (dynamic_build_id_is o) = c.dynamic_build_id == o
check_meets c (dynamic_run_id_is o) = c.dynamic_run_id == o

abbrev pub update_stored :
    String
    → List CheckField
    → List CheckExpectation
    → Option RouteCheckResult
    → Action (Option RouteCheckResult)
update_stored check_id fields expected none = pure none
update_stored check_id fields expected (some current) =
    if all (check_meets current) expected
    then (do
      r ← get_repository
      let updated = update_check_fields fields current
      put_repository (record r { route_checks = insert check_id updated r.route_checks })
      pure (some updated))
    else pure none

-- `updates.setdefault("updated_at", utc_now())`: the clock's time counts unless the caller gives one.
unfoldable pub update_route_check :
    String → List CheckField → List CheckExpectation → Action (Option RouteCheckResult)
update_route_check check_id fields expected = do
  now ← utc_now
  r ← get_repository
  update_stored check_id (CheckField.updated_at now ∷ fields) expected
      (lookup check_id r.route_checks)

-- the checks without those of a key
unfoldable pub without_key : RouteKey → Dict String RouteCheckResult → Dict String RouteCheckResult
without_key key [] = []
without_key key ((k, c) ∷ checks) =
    let rest = without_key key checks in if route_key c == key then rest else (k, c) ∷ rest

unfoldable pub delete_route_check : RouteKey → Action Bool
delete_route_check key = do
  r ← get_repository
  put_repository (record r { route_checks = without_key key r.route_checks })
  pure (is_some (first_match key r.route_checks))

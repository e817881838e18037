-- ===== src/RouteChecks/Outcome/Sound.antt =====
-- When a static check passes.
use docker_jenkins_orchestra.Prelude.{
  String, ◌≡◌, refl, sym, ap, ◌∙◌, ◌⊎◌, inl, inr, Bool, true, false, not, ◌&&◌, none, some, List,
  [], ltb, ◌==◌, nat_eq, string_eq, Bool-cases, option_eq, pair_eq, &&-both,
}
use docker_jenkins_orchestra.Models.Value.{Value, bool, get_key}
use docker_jenkins_orchestra.Models.RouteCheck.{RouteCheckResult, StaticStatus}
use docker_jenkins_orchestra.Repository.RouteChecks.{CheckField, update_check_fields}
use docker_jenkins_orchestra.Compose.Checked.{◌>>=◌, bind-ok}
use docker_jenkins_orchestra.RouteChecks.Commit.{refuse_input}
use docker_jenkins_orchestra.RouteChecks.Outcome.{
  AgentOutput, read_output, flag_of, diffs_of, report_of, reviewed_diffs, has_none, total_length,
  as_input, static_outcome, passed_fields, unpassed_fields,
}
use docker_jenkins_orchestra.World.{Result, ok, err, Error}

-- a check that has passed, by the agent's output and the checkout
pub record HasPassed (validate : Value → String → Result Value) (route : String) (raw : Value)
    (actual_diff : String) (head_changed : Bool) (saved : RouteCheckResult) : Type 0 where
  pub payload : Value
  pub passed : saved.static_check_passed ≡ some true
  pub succeeded : saved.static_status ≡ StaticStatus.succeeded
  pub no_diffs : saved.diff_list ≡ []
  pub with_payload : saved.probe_payload ≡ some payload
  pub found : get_key "route_found" raw ≡ bool true
  pub untouched : actual_diff ≡ ""
  pub same_head : head_changed ≡ false
  pub valid_payload : validate (get_key "probe_payload" raw) route ≡ ok payload

-- a check that has not
abbrev pub HasFailed : RouteCheckResult → Type 0
HasFailed saved =
    (saved.static_check_passed ≡ some false)
    × (saved.static_status ≡ StaticStatus.failed)
    × (saved.probe_payload ≡ none)

flag_of-bool : (v : Value) (b : Bool) → flag_of v ≡ ok b → v ≡ bool b
flag_of-bool (bool c) b h = let same : c ≡ b = cc h in rw same refl
flag_of-bool v b h = cc h

read_output-ok :
    (raw : Value) (output : AgentOutput)
    → read_output raw ≡ ok output
    → (get_key "route_found" raw ≡ bool output.route_found)
      × (get_key "probe_payload" raw ≡ output.probe_payload)
unfolding read_output
read_output-ok raw output h =
    let (found, e1, h1) = bind-ok (flag_of (get_key "route_found" raw)) _ h in
    let (_, _, h2) = bind-ok (flag_of (get_key "patch_available" raw)) _ h1 in
    let (diffs, _, h3) = bind-ok (diffs_of (get_key "diff_list" raw)) _ h2 in
    let (report, _, h4) = bind-ok (report_of (get_key "report_text" raw)) _ h3 in
    let made : record {
      route_found = found;
      diff_list = diffs;
      report_text = report;
      probe_payload = get_key "probe_payload" raw;
    }
        ≡ output =
      cc h4 in
    rw (sym made) (flag_of-bool (get_key "route_found" raw) found e1, refl)

as_input-ok : (r : Result Value) (v : Value) → as_input r ≡ ok v → r ≡ ok v
as_input-ok (ok a) v h = h
as_input-ok (err (Error.value_error m)) v h = cc h
as_input-ok (err e) v h = cc h

reviewed_diffs-none :
    (actual : String) (diffs : List String)
    → has_none (reviewed_diffs actual diffs) ≡ true
    → actual ≡ ""
reviewed_diffs-none actual diffs h = elim (Bool-cases (actual == "")) [
  | inl empty ↦ (string_eq.beq_iff actual "").0 empty
  | inr full ↦ let bad : false ≡ true = rw full at h in cc bad
]

not-true : (b : Bool) → not b ≡ true → b ≡ false
not-true true h = cc h
not-true false h = refl

module _ (validate : Value → String → Result Value) where
  -- When an output is accepted, then either the check is saved as passed: the agent has found the
  -- route, the checkout has no difference from the commit and is still at it, and the payload is
  -- valid for the route and is what is saved, without diffs; or it is saved as failed, without a
  -- payload.
  pub static_outcome_sound :
      (route : String) (raw : Value) (actual_diff : String) (head_changed : Bool)
      (fields : List CheckField) (check : RouteCheckResult)
      → static_outcome validate route raw actual_diff head_changed ≡ ok fields
      → HasPassed validate route raw actual_diff head_changed (update_check_fields fields check)
        ⊎ HasFailed (update_check_fields fields check)
  unfolding static_outcome update_check_fields
  static_outcome_sound route raw actual_diff head_changed fields check h =
      let (output, read, h1) = bind-ok (read_output raw) _ h in
      let diffs = reviewed_diffs actual_diff output.diff_list in
      let (_, _, h2) = bind-ok (refuse_input (ltb 1048576 (total_length diffs)) _) _ h1 in
      let (found, payload_of) = read_output-ok raw output read in
      elim (Bool-cases (output.route_found && has_none diffs && not head_changed)) [
        | inl passes ↦
            let (both, unmoved) =
              &&-both (output.route_found && has_none diffs) (not head_changed) passes in
            let (is_found, none_left) = &&-both output.route_found (has_none diffs) both in
            let good : (as_input (validate output.probe_payload route) >>= λ payload.
            ok (passed_fields payload))
                ≡ ok fields =
              rw passes at h2 in
            let (payload, valid, e) =
              bind-ok (as_input (validate output.probe_payload route)) _ good in
            let same : passed_fields payload ≡ fields = cc e in
            rw (sym same) (
              inl (record {
                payload = payload;
                passed = refl;
                succeeded = refl;
                no_diffs = refl;
                with_payload = refl;
                found = found ∙ ap bool is_found;
                untouched = reviewed_diffs-none actual_diff output.diff_list none_left;
                same_head = not-true head_changed unmoved;
                valid_payload =
                    ap (λ v. validate v route) payload_of
                    ∙ as_input-ok (validate output.probe_payload route) payload valid;
              }))
        | inr fails ↦
            let bad : ok (unpassed_fields diffs output.report_text) ≡ ok fields = rw fails at h2 in
            let same : unpassed_fields diffs output.report_text ≡ fields = cc bad in
            rw (sym same) (inr (refl, refl, refl))
      ]

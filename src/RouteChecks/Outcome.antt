-- ===== src/RouteChecks/Outcome.antt =====
-- What `execute_static` of orchestrator/route_checks.py makes of the output of an agent.
pub mod Sound
use docker_jenkins_orchestra.Prelude.{
  ℕ, ◌+◌, String, Bool, true, false, not, ◌&&◌, Option, none, some, List, [], ◌∷◌, ltb,
  if◌then◌else◌, ◌==◌, nat_eq, string_eq, option_eq, pair_eq, length, take,
}
use docker_jenkins_orchestra.Text.{codes}
use docker_jenkins_orchestra.Text.Strings.{strip, is_empty, prefix}
use docker_jenkins_orchestra.Models.Value.{Value, bool, str, sequence, item_list, get_key}
use docker_jenkins_orchestra.Models.RouteCheck.{StaticStatus}
use docker_jenkins_orchestra.Repository.RouteChecks.{CheckField}
use docker_jenkins_orchestra.Compose.Checked.{◌>>=◌, ◌>>◌}
use docker_jenkins_orchestra.RouteChecks.Commit.{refuse_input}
use docker_jenkins_orchestra.World.{Result, ok, err, Error}

-- the output of an agent, once its types are checked
pub record AgentOutput : Type 0 where
  pub route_found : Bool
  pub diff_list : List String
  pub report_text : String
  pub probe_payload : Value

abbrev pub flag_of : Value → Result Bool
flag_of (bool b) = ok b
flag_of v =
    err (Error.route_check_input "Static agent must return boolean route_found and patch_available")

abbrev pub text_list : List Value → Option (List String)
text_list [] = some []
text_list (str s ∷ vs) = elim (text_list vs) [ none ↦ none | some ss ↦ some (s ∷ ss) ]
text_list (v ∷ vs) = none

abbrev pub invalid_report {ℓ} : {A : Type ℓ} → Result A
invalid_report = err (Error.route_check_input "Static agent returned invalid diff or report output")

abbrev pub diffs_of : Value → Result (List String)
diffs_of (sequence vs) = elim (text_list (item_list vs)) [
  | none ↦ invalid_report
  | some diffs ↦ ok diffs
]
diffs_of v = invalid_report

abbrev pub report_of : Value → Result String
report_of (str s) = ok s
report_of v = invalid_report

unfoldable pub read_output : Value → Result AgentOutput
read_output output = do
  route_found ← flag_of (get_key "route_found" output)
  _ ← flag_of (get_key "patch_available" output)
  diff_list ← diffs_of (get_key "diff_list" output)
  report_text ← report_of (get_key "report_text" output)
  ok (record {
    route_found = route_found;
    diff_list = diff_list;
    report_text = report_text;
    probe_payload = get_key "probe_payload" output;
  })

-- `([actual_diff] if actual_diff else diff_list)[:20]`
abbrev pub reviewed_diffs : String → List String → List String
reviewed_diffs actual diff_list = if actual == "" then take 20 diff_list else actual ∷ []

abbrev pub total_length : List String → ℕ
total_length [] = 0
total_length (s ∷ ss) = length (codes s) + total_length ss

abbrev pub has_none : List String → Bool
has_none [] = true
has_none (s ∷ ss) = false

abbrev pub report_or_default : List String → String → String
report_or_default diffs report =
    if not (is_empty (strip report))
    then report
    else if has_none diffs
    then "未找到目标路由且无法生成微小补丁"
    else "目标路由需要修改；请审核 diff 并提交后重新检查"

-- the fields of a check that has passed, and of one that has not
abbrev pub passed_fields : Value → List CheckField
passed_fields payload =
    CheckField.static_status StaticStatus.succeeded
    ∷ CheckField.static_check_passed (some true)
    ∷ CheckField.probe_payload (some payload)
    ∷ CheckField.diff_list []
    ∷ CheckField.static_report_text none
    ∷ []

abbrev pub unpassed_fields : List String → String → List CheckField
unpassed_fields diffs report =
    CheckField.static_status StaticStatus.failed
    ∷ CheckField.static_check_passed (some false)
    ∷ CheckField.probe_payload none
    ∷ CheckField.diff_list diffs
    ∷ CheckField.static_report_text (some (prefix 4000 (report_or_default diffs report)))
    ∷ []

-- `except ValueError as exc: raise RouteCheckInputError(str(exc))`
abbrev pub as_input : Result Value → Result Value
as_input (err (Error.value_error message)) = err (Error.route_check_input message)
as_input r = r

-- `validate_probe_payload` of orchestrator/route_probes.py, of a payload and a route
module _ (validate_probe_payload : Value → String → Result Value) where
  abbrev pub judged : String → AgentOutput → List String → Bool → Result (List CheckField)
  judged route output diffs head_changed =
      if output.route_found && has_none diffs && not head_changed
      then (do
        payload ← as_input (validate_probe_payload output.probe_payload route)
        ok (passed_fields payload))
      else ok (unpassed_fields diffs output.report_text)

  unfoldable pub static_outcome : String → Value → String → Bool → Result (List CheckField)
  static_outcome route raw actual_diff head_changed = do
    output ← read_output raw
    let diffs = reviewed_diffs actual_diff output.diff_list
    refuse_input (ltb 1048576 (total_length diffs)) "Static patch exceeds the one MiB review limit"
    judged route output diffs head_changed

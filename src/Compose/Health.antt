-- ===== src/Compose/Health.antt =====
-- `_healthcheck` and `_duration_ns` of orchestrator/docker_services.py.
pub mod Parts
use Prim.Native.Char.{code}
use Prim.Native.String.{[] as no_chars, ◌∷◌ as ◌∷ₛ◌}
use docker_jenkins_orchestra.Prelude.{
  ℕ, zero, suc, ◌+◌, ◌-◌, ◌*◌, ◌/◌, ◌%◌, ◌^◌, ◌≤◌, ◌<◌, String, ◌≡◌, refl, sym, ap, ◌∙◌, ◌≢◌, ◌↔◌,
  ◌⊎◌, inl, inr, Bool, true, false, not, ◌&&◌, ◌||◌, Option, none, some, List, [], ◌∷◌, ◌++◌, map,
  arith, eq_iff, ltb, leb, nat_beq, if◌then◌else◌, nat_beq_iff, leb_iff, ltb_iff, Eq, ◌==◌, nat_eq,
  string_eq, concat, Bool-cases, Option-cases, is_some, ==-refl, option_eq, pair_eq, length, take,
  drop, all, any, length-append, length-take, length-drop, All, All-append,
}
use docker_jenkins_orchestra.Text.{codes}
use docker_jenkins_orchestra.Text.Strings.{strip}
use docker_jenkins_orchestra.Text.Rounded.{Rounded, times_int, sum, whole_part, take_digits}
use docker_jenkins_orchestra.Deployment.Order.{member, Outcome, done, failed, out_of_fuel}
use docker_jenkins_orchestra.Compose.Fields.{put_last}
use docker_jenkins_orchestra.Models.Value.{
  Value, null, bool, int, str, sequence, mapping, Entries, nil, cons, end, entry, item_list,
  key_list, get_key,
}
use docker_jenkins_orchestra.Compose.Checked.{reject, ◌>>=◌, ◌>>◌, refuse_if}
use docker_jenkins_orchestra.Compose.Environment.{is_text}
use docker_jenkins_orchestra.World.{Result, ok}

-- the letter s, and what follows it
abbrev pub then_s : ℕ → String → Option (ℕ × String)
then_s unit no_chars = none
then_s unit (◌∷ₛ◌ c s) = if code c == b's' then some (unit, s) else none

abbrev pub or_minutes : String → Option (ℕ × String) → Option (ℕ × String)
or_minutes s none = some (60000000000, s)
or_minutes s (some found) = some found

-- `ns|us|ms|s|m|h` in front of a text: the unit in nanoseconds, and what follows it
abbrev pub duration_unit : String → Option (ℕ × String)
duration_unit no_chars = none
duration_unit (◌∷ₛ◌ c s) =
    if code c == b's'
    then some (1000000000, s)
    else if code c == b'h'
    then some (3600000000000, s)
    else if code c == b'm'
    then or_minutes s (then_s 1000000 s)
    else if code c == b'n'
    then then_s 1 s
    else if code c == b'u'
    then then_s 1000 s
    else none

-- `n` with the digits of its fraction, if there are any
abbrev pub with_fraction : ℕ → String → ℕ × ℕ × String → Rounded × String
with_fraction n s (m, zero, rest) = (record { coefficient = n; scale = 0 }, s)
with_fraction n s (m, suc count, rest) = (record { coefficient = m; scale = suc count }, rest)

-- `(?:\.\d+)?` in front of a text
abbrev pub fraction : ℕ → String → Rounded × String
fraction n no_chars = (record { coefficient = n; scale = 0 }, no_chars)
fraction n (◌∷ₛ◌ c s) =
    if code c == b'.'
    then with_fraction n (◌∷ₛ◌ c s) (take_digits n 0 s)
    else (record { coefficient = n; scale = 0 }, ◌∷ₛ◌ c s)

abbrev pub with_unit : Rounded → Option (ℕ × String) → Option (Rounded × String)
with_unit value none = none
with_unit value (some (unit, rest)) = some (times_int value unit, rest)

abbrev pub measured : Rounded × String → Option (Rounded × String)
measured (value, s) = with_unit value (duration_unit s)

abbrev pub numbered : ℕ × ℕ × String → Option (Rounded × String)
numbered (n, zero, s) = none
numbered (n, suc count, s) = measured (fraction n s)

-- `_DURATION_PART` in front of a text of ASCII characters, in nanoseconds, and what follows it
unfoldable pub duration_part : String → Option (Rounded × String)
duration_part s = numbered (take_digits 0 0 s)

-- `while position < len(text)`, with fuel for the parts
unfoldable pub duration_parts : ℕ → Rounded → String → Outcome Rounded
duration_parts fuel total no_chars = done total
duration_parts zero total (◌∷ₛ◌ c s) = out_of_fuel
duration_parts (suc fuel) total (◌∷ₛ◌ c s) = elim (duration_part (◌∷ₛ◌ c s)) [
  | none ↦ failed "Compose healthcheck duration is invalid"
  | some (value, rest) ↦ duration_parts fuel (sum total value) rest
]

abbrev pub nanoseconds : Outcome Rounded → Result ℕ
nanoseconds (done total) = ok (whole_part total)
nanoseconds other = reject "Compose healthcheck duration is invalid"

-- every part takes at least one character
abbrev pub duration_text : String → Outcome Rounded
duration_text no_chars = failed "Compose healthcheck duration is invalid"
duration_text (◌∷ₛ◌ c s) =
    duration_parts (length (codes (◌∷ₛ◌ c s))) (record { coefficient = 0; scale = 0 }) (◌∷ₛ◌ c s)

unfoldable pub duration_ns : Value → Result ℕ
duration_ns (int n) = ok n
duration_ns (str s) = nanoseconds (duration_text (strip s))
duration_ns v = reject "Compose healthcheck duration is invalid"

-- the test as a list of texts
abbrev pub normalized_test : Value → Result Value
normalized_test (str s) = ok (sequence (cons (str "CMD-SHELL") (cons (str s) nil)))
normalized_test (sequence nil) = reject "Compose healthcheck test is invalid"
normalized_test (sequence (cons v vs)) =
    if all is_text (item_list (cons v vs))
    then ok (sequence (cons v vs))
    else reject "Compose healthcheck test is invalid"
normalized_test v = reject "Compose healthcheck test is invalid"

abbrev pub put_duration : String → Value → Entries → Result Entries
put_duration target null es = ok es
put_duration target v es = do ns ← duration_ns v; ok (put_last target (int ns) es)

abbrev pub put_retries : Value → Entries → Result Entries
put_retries null es = ok es
put_retries (int n) es = ok (put_last "Retries" (int n) es)
put_retries v es = reject "Compose healthcheck retries are invalid"

-- `value not in (None, False)`, where 0 equals `False`
abbrev pub is_off : Value → Bool
is_off null = true
is_off (bool b) = not b
is_off (int n) = n == 0
is_off v = false

abbrev pub is_true : Value → Bool
is_true (bool b) = b
is_true v = false

abbrev pub test_settings : Entries → Value → Result (Option Value)
test_settings es null = ok none
test_settings es v = do
  test ← normalized_test v
  with_interval ← put_duration "Interval" (get_key "interval" (mapping es)) (entry "Test" test end)
  with_timeout ← put_duration "Timeout" (get_key "timeout" (mapping es)) with_interval
  with_start ← put_duration "StartPeriod" (get_key "start_period" (mapping es)) with_timeout
  settings ← put_retries (get_key "retries" (mapping es)) with_start
  let known = "test" ∷ "disable" ∷ "interval" ∷ "timeout" ∷ "start_period" ∷ "retries" ∷ []
  refuse_if (not (all (λ key. member key known) (key_list es)))
      "Compose healthcheck contains unsupported fields"
  ok (some (mapping settings))

unfoldable pub healthcheck : Value → Result (Option Value)
healthcheck null = ok none
healthcheck (mapping es) =
    let disable = get_key "disable" (mapping es) in
    if is_true disable
    then ok (some (mapping (entry "Test" (sequence (cons (str "NONE") nil)) end)))
    else if is_off disable
    then test_settings es (get_key "test" (mapping es))
    else reject "Compose healthcheck disable flag is invalid"
healthcheck v = reject "Compose healthcheck is invalid"

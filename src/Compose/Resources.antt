-- ===== src/Compose/Resources.antt =====
-- `_cpu_nano`, `_memory_bytes`, `_validate_resources` and `_resources` of
-- orchestrator/docker_services.py.
use Prim.Native.Char.{code}
use Prim.Native.String.{[] as no_chars, ◌∷◌ as ◌∷ₛ◌}
use docker_jenkins_orchestra.Prelude.{
  ℕ, zero, suc, ◌+◌, ◌-◌, ◌*◌, ◌^◌, String, Bool, true, false, ◌&&◌, ◌||◌, Option, none, some, List,
  [], ◌∷◌, leb, if◌then◌else◌, ◌==◌, nat_eq, string_eq, concat, option_eq, pair_eq,
}
use docker_jenkins_orchestra.Text.{codes}
use docker_jenkins_orchestra.Text.Strings.{strip}
use docker_jenkins_orchestra.Text.Rounded.{Rounded, times_int, whole_part, take_digits}
use docker_jenkins_orchestra.Naming.{lower}
use docker_jenkins_orchestra.Models.Value.{
  Value, null, bool, int, mapping, Entries, end, entry, entry_list, key_list, get_key, has_key,
}
use docker_jenkins_orchestra.Compose.Checked.{reject, ◌>>=◌, ◌>>◌, each, positive, caught}
use docker_jenkins_orchestra.Compose.Fields.{unsupported, refuse_keys, put_last}
use docker_jenkins_orchestra.Compose.Environment.{text_of}
use docker_jenkins_orchestra.Compose.Mounts.{byte_count}
use docker_jenkins_orchestra.World.{Result, ok, err, Error}

-- What `Decimal(text)` gives: a number, with true for minus, or an infinity; `invalid` is a NaN and
-- `InvalidOperation`, which end in one error.
pub data Parsed : Type 0 where
  number : Bool → Rounded → Parsed
  infinite invalid : Parsed

-- `10 ^ exponent`, where true is minus, times a number
abbrev pub scaled : Bool → ℕ → Rounded → Rounded
scaled true exponent d = record d { scale = d.scale + exponent }
scaled false exponent d =
    if leb exponent d.scale
    then record d { scale = d.scale - exponent }
    else record { coefficient = d.coefficient * 10 ^ (exponent - d.scale); scale = 0 }

-- at least one digit, and nothing behind
abbrev pub with_exponent : Bool → Rounded → Bool → ℕ × ℕ × String → Parsed
with_exponent minus d down (e, suc count, no_chars) = number minus (scaled down e d)
with_exponent minus d down other = invalid

abbrev pub signed_exponent : Bool → Rounded → String → Parsed
signed_exponent minus d no_chars = invalid
signed_exponent minus d (◌∷ₛ◌ c s) =
    if code c == b'-'
    then with_exponent minus d true (take_digits 0 0 s)
    else if code c == b'+'
    then with_exponent minus d false (take_digits 0 0 s)
    else with_exponent minus d false (take_digits 0 0 (◌∷ₛ◌ c s))

-- `[eE][-+]?\d+` or the end of the text
abbrev pub exponent_part : Bool → Rounded → String → Parsed
exponent_part minus d no_chars = number minus d
exponent_part minus d (◌∷ₛ◌ c s) =
    if code c == b'e' || code c == b'E' then signed_exponent minus d s else invalid

-- the digits behind the point; the point alone is no number
abbrev pub behind_point : Bool → ℕ → ℕ × ℕ × String → Parsed
behind_point minus zero (m, zero, rest) = invalid
behind_point minus before (m, count, rest) =
    exponent_part minus (record { coefficient = m; scale = count }) rest

abbrev pub before_point : Bool → ℕ × ℕ × String → Parsed
before_point minus (n, zero, no_chars) = invalid
before_point minus (n, suc count, no_chars) = number minus (record { coefficient = n; scale = 0 })
before_point minus (n, count, ◌∷ₛ◌ c s) =
    if code c == b'.'
    then behind_point minus count (take_digits n 0 s)
    else if count == 0
    then invalid
    else exponent_part minus (record { coefficient = n; scale = 0 }) (◌∷ₛ◌ c s)

-- `text.replace("_", "")`
abbrev pub without_underscores : String → String
without_underscores no_chars = no_chars
without_underscores (◌∷ₛ◌ c s) =
    let rest = without_underscores s in if code c == b'_' then rest else ◌∷ₛ◌ c rest

-- whether two texts agree up to the case of their letters
abbrev pub same_letters : List ℕ → List ℕ → Bool
same_letters [] [] = true
same_letters (c ∷ cs) (d ∷ ds) = lower c == lower d && same_letters cs ds
same_letters _ _ = false

abbrev pub unsigned_decimal : Bool → String → Parsed
unsigned_decimal minus s =
    if same_letters (codes s) (codes "inf") || same_letters (codes s) (codes "infinity")
    then infinite
    else before_point minus (take_digits 0 0 s)

abbrev pub signed_decimal : String → Parsed
signed_decimal no_chars = invalid
signed_decimal (◌∷ₛ◌ c s) =
    if code c == b'-'
    then unsigned_decimal true s
    else if code c == b'+'
    then unsigned_decimal false s
    else unsigned_decimal false (◌∷ₛ◌ c s)

-- `Decimal(text)` for a text of ASCII characters
unfoldable pub parse_decimal : String → Parsed
parse_decimal s = signed_decimal (without_underscores (strip s))

abbrev pub nanos_of : Parsed → Result ℕ
nanos_of (number minus d) =
    positive "Compose CPU resource is invalid" (minus, whole_part (times_int d 1000000000))
nanos_of infinite = err (Error.python_error "OverflowError" "cannot convert Infinity to integer")
nanos_of invalid = reject "Compose CPU resource is invalid"

-- the entry of a result under a Compose field, where that field is given
abbrev pub put_amount : String → Option ℕ → Entries → Entries
put_amount key none es = es
put_amount key (some n) es = put_last key (int n) es

abbrev pub if_given : (Value → Result ℕ) → Bool → Value → Result (Option ℕ)
if_given amount false v = ok none
if_given amount true v = do n ← amount v; ok (some n)

abbrev pub put_section : String → Entries → Entries → Entries
put_section key end es = es
put_section key (entry k v fs) es = put_last key (mapping (entry k v fs)) es

-- `result or None`
abbrev pub settings_or_none : Entries → Option Value
settings_or_none end = none
settings_or_none (entry k v es) = some (mapping (entry k v es))

-- `repr` is Python's `str` of a list or of a mapping, and `parse_bytes` docker.utils.parse_bytes.
module _ (repr : Value → String) (parse_bytes : String → Result (Bool × ℕ)) where
  unfoldable pub cpu_nano : Value → Result ℕ
  cpu_nano (bool b) = reject "Compose CPU resource is invalid"
  cpu_nano v = nanos_of (parse_decimal (text_of repr v))

  unfoldable pub memory_bytes : Value → Result ℕ
  memory_bytes (bool b) = reject "Compose memory resource is invalid"
  memory_bytes v = do
    size ← caught "Compose memory resource is invalid" (byte_count parse_bytes v)
    positive "Compose memory resource is invalid" size

  -- an item of `limits` or of `reservations`
  abbrev pub resource_amount : String × Value → Result ℕ
  resource_amount (key, v) = if key == "cpus" then cpu_nano v else memory_bytes v

  abbrev pub check_section : String → String → Value → Result (Unit {0})
  check_section service_name section null = ok tt
  check_section service_name section (mapping es) = do
    refuse_keys
        ("Compose " ∷ section ∷ " resources for " ∷ service_name ∷ " use unsupported fields: " ∷ [])
        (unsupported ("cpus" ∷ "memory" ∷ []) (key_list es))
    amounts ← each resource_amount (entry_list es)
    ok tt
  check_section service_name section v =
      reject
        (concat ("Compose " ∷ section ∷ " resources for " ∷ service_name ∷ " are invalid" ∷ []))

  unfoldable pub validate_resources : String → Value → Result (Unit {0})
  validate_resources service_name (mapping es) = do
    refuse_keys ("Compose resources for " ∷ service_name ∷ " use unsupported fields: " ∷ [])
        (unsupported ("limits" ∷ "reservations" ∷ []) (key_list es))
    check_section service_name "limits" (get_key "limits" (mapping es))
    check_section service_name "reservations" (get_key "reservations" (mapping es))
  validate_resources service_name v =
      reject (concat ("Compose resources for " ∷ service_name ∷ " are invalid" ∷ []))

  -- `mapped`
  abbrev pub section_amounts : Value → Result Entries
  section_amounts values = do
    cpus ← if_given cpu_nano (has_key "cpus" values) (get_key "cpus" values)
    memory ← if_given memory_bytes (has_key "memory" values) (get_key "memory" values)
    ok (put_amount "MemoryBytes" memory (put_amount "NanoCPUs" cpus end))

  abbrev pub resource_settings : Value → Result (Option Value)
  resource_settings null = ok none
  resource_settings raw = do
    validate_resources "service" raw
    limits ← section_amounts (get_key "limits" raw)
    reservations ← section_amounts (get_key "reservations" raw)
    ok (
        settings_or_none
          (put_section "Reservations" reservations (put_section "Limits" limits end)))

  -- `get_key` gives `null` for a `deploy` that is no mapping.
  unfoldable pub resources : Value → Result (Option Value)
  resources raw_deploy = resource_settings (get_key "resources" raw_deploy)

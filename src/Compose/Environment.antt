-- ===== src/Compose/Environment.antt =====
-- `_environment`, `_command` and `_labels` of orchestrator/docker_services.py.
use docker_jenkins_orchestra.Prelude.{
  ◌+◌, String, Bool, true, false, ◌||◌, Option, none, some, List, [], ◌∷◌, if◌then◌else◌, ◌==◌,
  nat_eq, string_eq, concat, option_eq, pair_eq, all,
}
use docker_jenkins_orchestra.Prelude.Dict.{Dict, insert}
use docker_jenkins_orchestra.Text.{codes, printable}
use docker_jenkins_orchestra.Text.Regex.{Regex, cls, seq, star, fullmatch}
use docker_jenkins_orchestra.Text.Strings.{split_first}
use docker_jenkins_orchestra.Text.Decimal.{decimal}
use docker_jenkins_orchestra.Naming.{
  named, naming_error, is_upper, is_lower, is_alnum, external_namespace,
}
use docker_jenkins_orchestra.Deployment.Order.{sort}
use docker_jenkins_orchestra.Models.Value.{
  Value, null, bool, int, negative, str, sequence, mapping, item_list, entry_list, key_list,
  get_key,
}
use docker_jenkins_orchestra.Compose.Checked.{reject, ◌>>=◌, each}
use docker_jenkins_orchestra.World.{Result, ok}

-- `_ENV_KEY_PATTERN`
abbrev pub env_key_pattern : Regex
env_key_pattern =
    seq (cls (λ c. is_upper c || is_lower c || c == b'_'))
      (star (cls (λ c. is_alnum c || c == b'_')))

unfoldable pub is_env_key : String → Bool
is_env_key key = fullmatch env_key_pattern (codes key)

-- an item of the list form
abbrev pub environment_item : Value → Result String
environment_item (str item) = elim (split_first b'=' item) [
  | none ↦ reject "Compose service environment is invalid"
  | some parts ↦
      if is_env_key parts.0 then ok item else reject "Compose service environment is invalid"
]
environment_item v = reject "Compose service environment is invalid"

abbrev pub is_text : Value → Bool
is_text (str s) = true
is_text v = false

unfoldable pub command : Value → Result Value
command (str s) = ok (str s)
command (sequence vs) =
    if all is_text (item_list vs)
    then ok (sequence vs)
    else reject "Compose service command is invalid"
command v = reject "Compose service command is invalid"

-- `_namespace`
unfoldable pub namespace_of : String → Result String
namespace_of appid = elim (external_namespace (codes appid)) [
  | named name ↦ ok (printable name)
  | naming_error message ↦ reject "Application ID is invalid for Docker service deployment"
]

abbrev pub or_namespace_of : String → Option String → Result String
or_namespace_of appid none = namespace_of appid
or_namespace_of appid (some namespace) = ok namespace

-- `repr` is Python's `str` of a list or of a mapping.
module _ (repr : Value → String) where
  -- `str(value)`
  unfoldable pub text_of : Value → String
  text_of null = "None"
  text_of (bool true) = "True"
  text_of (bool false) = "False"
  text_of (int n) = decimal n
  text_of (negative n) = concat ("-" ∷ decimal (n + 1) ∷ [])
  text_of (str s) = s
  text_of v = repr v

  -- `str(value).lower() if isinstance(value, bool) else str(value)`
  abbrev pub setting_text : Value → String
  setting_text (bool true) = "true"
  setting_text (bool false) = "false"
  setting_text v = text_of v

  -- `KEY=value` of the mapping form
  abbrev pub environment_entry : String → Value → Result String
  environment_entry key null = reject "Compose service environment is invalid"
  environment_entry key v = ok (concat (key ∷ "=" ∷ setting_text v ∷ []))

  unfoldable pub environment : Value → Result (List String)
  environment null = ok []
  environment (mapping es) =
      if all is_env_key (key_list es)
      then each (λ key. environment_entry key (get_key key (mapping es))) (sort (key_list es))
      else reject "Compose service environment is invalid"
  environment (sequence vs) = each environment_item (item_list vs)
  environment v = reject "Compose service environment is invalid"

  abbrev pub label_entry : String × Value → Result (String × String)
  label_entry (key, null) = reject "Compose labels are invalid"
  label_entry (key, v) =
      if key == "" then reject "Compose labels are invalid" else ok (key, setting_text v)

  abbrev pub given_labels : Value → Result (Dict String String)
  given_labels null = ok []
  given_labels (mapping es) = each label_entry (entry_list es)
  given_labels v = reject "Compose labels must be a mapping"

  -- `namespace` is `none` where the caller gives none
  unfoldable pub labels : String → String → Value → Option String → Result (Dict String String)
  labels appid compose_name raw namespace = do
    given ← given_labels raw
    name ← or_namespace_of appid namespace
    ok (
        insert "io.docker-jenkins-orchestrator.compose-service" compose_name (
          insert "io.docker-jenkins-orchestrator.namespace" name
            (insert "io.docker-jenkins-orchestrator.appid" appid given)))

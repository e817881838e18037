-- ===== src/Compose/Deploy.antt =====
-- `_mode` and `_restart_policy` of orchestrator/docker_services.py.
use docker_jenkins_orchestra.Prelude.{
  String, Bool, false, not, ◌||◌, Option, none, some, [], ◌∷◌, if◌then◌else◌, ◌==◌, nat_eq,
  string_eq, option_eq, pair_eq,
}
use docker_jenkins_orchestra.Models.Value.{
  Value, null, int, str, mapping, end, entry, get_key, get_or,
}
use docker_jenkins_orchestra.Compose.Checked.{reject, ◌>>=◌, ◌>>◌, refuse_if, text_among}
use docker_jenkins_orchestra.World.{Result, ok}

-- an object with one field
abbrev pub single : String → Value → Value
single key value = mapping (entry key value end)

abbrev pub is_word : String → Value → Bool
is_word word (str s) = s == word
is_word word v = false

abbrev pub replicated : Value → Result (Option Value)
replicated (int n) = ok (some (single "replicated" (single "Replicas" (int n))))
replicated v = reject "Compose service replica count is invalid"

unfoldable pub mode : Value → Result (Option Value)
mode null = ok none
mode (mapping es) =
    let wanted = get_or "mode" (str "replicated") (mapping es) in
    if is_word "global" wanted
    then ok (some (single "global" (mapping end)))
    else if not (is_word "replicated" wanted)
    then reject "Compose deploy mode is invalid"
    else replicated (get_or "replicas" (int 1) (mapping es))
mode v = reject "Compose deploy settings are invalid"

-- `mapping` of the method
abbrev pub restart_condition : Value → Option String
restart_condition (str s) =
    if s == "no"
    then some "none"
    else if s == "always" || s == "unless-stopped"
    then some "any"
    else if s == "on-failure"
    then some "on-failure"
    else none
restart_condition v = none

abbrev pub restart_setting : Option String → Result (Option Value)
restart_setting none = reject "Compose restart policy is invalid"
restart_setting (some condition) = ok (some (single "Condition" (str condition)))

-- the setting of the service itself, where `deploy` has no policy
abbrev pub own_policy : Value → Result (Option Value)
own_policy null = ok none
own_policy v = restart_setting (restart_condition v)

abbrev pub policy_or : Value → Value → Result (Option Value)
policy_or restart null = own_policy restart
policy_or restart (mapping es) = do
  let condition = get_or "condition" (str "any") (mapping es)
  known ← text_among ("none" ∷ "on-failure" ∷ "any" ∷ []) condition
  refuse_if (not known) "Compose restart policy is invalid"
  ok (some (single "Condition" condition))
policy_or restart v = reject "Compose restart policy is invalid"

-- `get_key` gives `null` for a `deploy` that is no mapping.
unfoldable pub restart_policy : Value → Value → Result (Option Value)
restart_policy restart raw_deploy = policy_or restart (get_key "restart_policy" raw_deploy)

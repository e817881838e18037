-- ===== src/Compose/Features.antt =====
-- `_validate_compose_features` of orchestrator/docker_services.py.
use docker_jenkins_orchestra.Prelude.{
  ℕ, String, Bool, false, not, ◌&&◌, ◌||◌, Option, none, some, List, [], ◌∷◌, if◌then◌else◌, ◌==◌,
  nat_eq, string_eq, concat, is_some, option_eq, pair_eq, all,
}
use docker_jenkins_orchestra.Prelude.Dict.{Dict, lookup}
use docker_jenkins_orchestra.Text.Strings.{starts_with_any}
use docker_jenkins_orchestra.Deployment.Order.{member, sort}
use docker_jenkins_orchestra.Models.Value.{
  Value, null, str, sequence, mapping, end, entry, item_list, entry_list, key_list, get_key, get_or,
  has_key, truthy,
}
use docker_jenkins_orchestra.Compose.Checked.{reject, ◌>>=◌, ◌>>◌, refuse_if, each, text_among}
use docker_jenkins_orchestra.Compose.Fields.{unsupported, refuse_keys, keys_with, is_extension}
use docker_jenkins_orchestra.Compose.Environment.{environment, labels, command, text_of}
use docker_jenkins_orchestra.Compose.Ports.{ports}
use docker_jenkins_orchestra.Compose.Mounts.{mounts, shm_mount}
use docker_jenkins_orchestra.Compose.Health.{healthcheck}
use docker_jenkins_orchestra.Compose.Deploy.{is_word, mode, restart_policy}
use docker_jenkins_orchestra.Compose.Resources.{resources, validate_resources}
use docker_jenkins_orchestra.World.{Result, ok}

-- `_SUPPORTED_SERVICE_FIELDS`
abbrev pub supported_service_fields : List String
supported_service_fields =
    "image" ∷ "command" ∷ "environment" ∷ "ports" ∷ "volumes" ∷ "shm_size" ∷ "working_dir"
    ∷ "labels" ∷ "restart" ∷ "healthcheck" ∷ "deploy" ∷ "depends_on" ∷ "expose" ∷ []

-- `_REJECTED_SERVICE_FIELDS`
abbrev pub rejected_service_fields : List String
rejected_service_fields =
    "build" ∷ "container_name" ∷ "configs" ∷ "devices" ∷ "dns" ∷ "dns_opt" ∷ "dns_search"
    ∷ "entrypoint" ∷ "extra_hosts" ∷ "gpus" ∷ "init" ∷ "ipc" ∷ "links" ∷ "logging" ∷ "network_mode"
    ∷ "networks" ∷ "pid" ∷ "privileged" ∷ "profiles" ∷ "read_only" ∷ "runtime" ∷ "secrets"
    ∷ "stop_grace_period" ∷ "stop_signal" ∷ "sysctls" ∷ "tmpfs" ∷ "tty" ∷ "ulimits" ∷ "user"
    ∷ "working_dir_host" ∷ []

abbrev pub is_rejected : String → Bool
is_rejected key =
    member key rejected_service_fields
    || (not (member key supported_service_fields) && not (is_extension key))

unfoldable pub working_dir : Value → Result (Option String)
working_dir null = ok none
working_dir (str s) =
    if starts_with_any (b'/' ∷ []) s
    then ok (some s)
    else reject "Compose working directory is invalid"
working_dir v = reject "Compose working directory is invalid"

-- a conversion of a field that is skipped where the field is missing
abbrev pub unless_null {ℓ} : {A : Type ℓ} → (Value → Result A) → Value → Result (Option A)
unless_null f null = ok none
unless_null f v = do a ← f v; ok (some a)

-- the names of the list form, each with an empty configuration
abbrev pub plain_dependencies : List Value → List (String × Value)
plain_dependencies [] = []
plain_dependencies (str s ∷ vs) = (s, mapping end) ∷ plain_dependencies vs
plain_dependencies (v ∷ vs) = plain_dependencies vs

abbrev pub is_named : Value → Bool
is_named (str s) = not (s == "")
is_named v = false

-- the dictionary `dependencies`
abbrev pub configured_dependencies : String → Value → Result (List (String × Value))
configured_dependencies name null = ok []
configured_dependencies name (sequence vs) =
    if all is_named (item_list vs)
    then ok (plain_dependencies (item_list vs))
    else reject (concat ("Compose service " ∷ name ∷ " has an invalid dependency name" ∷ []))
configured_dependencies name (mapping es) = ok (entry_list es)
configured_dependencies name v =
    reject (concat ("Compose depends_on for " ∷ name ∷ " is invalid" ∷ []))

-- `Compose dependency name->dependency`, and the rest of a message
abbrev pub about_dependency : String → String → List String → List String
about_dependency name dependency rest = "Compose dependency " ∷ name ∷ "->" ∷ dependency ∷ rest

-- `services[dependency].get("healthcheck")`
abbrev pub has_healthcheck : Option Value → Bool
has_healthcheck none = false
has_healthcheck (some definition) = truthy (get_key "healthcheck" definition)

abbrev pub definition_keys : Value → List String
definition_keys (mapping es) = key_list es
definition_keys v = []

-- `repr` is Python's `str` of a list or of a mapping, and `parse_bytes` docker.utils.parse_bytes.
module _ (repr : Value → String) (parse_bytes : String → Result (Bool × ℕ))
    (services : Dict String Value) where
  abbrev pub check_condition : String → String → Value → Result (Unit {0})
  check_condition name dependency condition = do
    known ← text_among ("service_started" ∷ "service_healthy" ∷ []) condition
    refuse_if (not known) (
        concat (
          about_dependency name dependency
            (" uses unsupported condition " ∷ text_of repr condition ∷ [])))
    refuse_if
        (is_word "service_healthy" condition && not (has_healthcheck (lookup dependency services)))
        (concat (
          about_dependency name dependency
            (" requires service_healthy but has no healthcheck" ∷ [])))

  -- `config` of a dependency
  abbrev pub check_config : String → String → Value → Result (Unit {0})
  check_config name dependency null = ok tt
  check_config name dependency (mapping end) = ok tt
  check_config name dependency (mapping (entry k v es)) = do
    refuse_keys (about_dependency name dependency (" uses unsupported fields: " ∷ []))
        (unsupported ("condition" ∷ []) (key_list (entry k v es)))
    check_condition name dependency
        (get_or "condition" (str "service_started") (mapping (entry k v es)))
  check_config name dependency v =
      reject (concat (about_dependency name dependency (" is invalid" ∷ [])))

  abbrev pub check_dependency : String → String × Value → Result (Unit {0})
  check_dependency name (dependency, config) = do
    refuse_if (dependency == "")
        (concat ("Compose service " ∷ name ∷ " has an invalid dependency name" ∷ []))
    refuse_if (not (is_some (lookup dependency services)))
        (concat ("Compose service " ∷ name ∷ " depends on unknown service " ∷ dependency ∷ []))
    check_config name dependency config

  unfoldable pub check_dependencies : String → Value → Result (Unit {0})
  check_dependencies name depends_on = do
    entries ← configured_dependencies name depends_on
    checked ← each (check_dependency name) entries
    ok tt

  abbrev pub check_policy : String → Value → Result (Unit {0})
  check_policy name (mapping es) =
      refuse_keys ("Compose restart policy for " ∷ name ∷ " uses unsupported fields: " ∷ [])
        (unsupported ("condition" ∷ []) (key_list es))
  check_policy name v = ok tt

  abbrev pub check_resources : String → Value → Result (Unit {0})
  check_resources name null = ok tt
  check_resources name raw = validate_resources repr parse_bytes name raw

  unfoldable pub check_deploy : String → Value → Result (Unit {0})
  check_deploy name null = ok tt
  check_deploy name (mapping es) = do
    refuse_keys ("Compose deploy settings for " ∷ name ∷ " use unsupported fields: " ∷ [])
        (unsupported ("mode" ∷ "replicas" ∷ "restart_policy" ∷ "resources" ∷ []) (key_list es))
    check_policy name (get_key "restart_policy" (mapping es))
    check_resources name (get_key "resources" (mapping es))
  check_deploy name v =
      reject (concat ("Compose deploy settings for " ∷ name ∷ " are invalid" ∷ []))

  -- the conversions of a definition, run for what they raise
  unfoldable pub check_conversions : String → Value → Result (Unit {0})
  check_conversions name definition = do
    env ← environment repr (get_key "environment" definition)
    given ← labels repr "validation" name (get_key "labels" definition) none
    published ← ports (get_key "ports" definition)
    argv ← unless_null command (get_key "command" definition)
    directory ← working_dir (get_key "working_dir" definition)
    mounted ← mounts [] (get_key "volumes" definition)
    shared ← unless_null (shm_mount parse_bytes) (get_key "shm_size" definition)
    health ← healthcheck (get_key "healthcheck" definition)
    replication ← mode (get_key "deploy" definition)
    policy ← restart_policy (get_key "restart" definition) (get_key "deploy" definition)
    limits ← resources repr parse_bytes (get_key "deploy" definition)
    ok tt

  unfoldable pub check_definition : String × Value → Result (Unit {0})
  check_definition (name, definition) = do
    check_conversions name definition
    refuse_if (has_key "env_file" definition) (
        concat (
          "Compose service " ∷ name
          ∷ " uses env_file; resolve it into environment before deployment" ∷ []))
    refuse_keys ("Compose service " ∷ name ∷ " uses unsupported fields: " ∷ [])
        (sort (keys_with is_rejected (definition_keys definition)))
    check_deploy name (get_key "deploy" definition)
    check_dependencies name (get_key "depends_on" definition)

  unfoldable pub validate_compose_features : Result (Unit {0})
  validate_compose_features = do checked ← each check_definition services; ok tt

-- ===== src/Compose/Document.antt =====
-- `validate_compose`, `_validate_top_level`, `_compose_services`, `_validate_service_name` and
-- `_validate_service_image` of orchestrator/docker_services.py.
use docker_jenkins_orchestra.Prelude.{
  ℕ, String, Bool, true, false, not, ◌&&◌, ◌||◌, List, [], ◌∷◌, if◌then◌else◌, ◌==◌, nat_eq,
  string_eq, concat, option_eq, pair_eq, all,
}
use docker_jenkins_orchestra.Prelude.Dict.{Dict}
use docker_jenkins_orchestra.Text.{codes}
use docker_jenkins_orchestra.Text.Regex.{fullmatch}
use docker_jenkins_orchestra.Text.Strings.{strip, is_empty}
use docker_jenkins_orchestra.Naming.{resource_name_pattern}
use docker_jenkins_orchestra.Deployment.Order.{
  Outcome, done, failed, out_of_fuel, member, sort, deployment_order,
}
use docker_jenkins_orchestra.Models.Value.{
  Value, null, bool, str, mapping, end, entry, entry_list, key_list, get_key, has_key, is_mapping,
}
use docker_jenkins_orchestra.Compose.Checked.{reject, ◌>>=◌, ◌>>◌, refuse_if, each}
use docker_jenkins_orchestra.Compose.Fields.{unsupported, refuse_keys, keys_with, is_extension}
use docker_jenkins_orchestra.Compose.Features.{validate_compose_features}
use docker_jenkins_orchestra.World.{Result, ok}

-- `_SUPPORTED_TOP_LEVEL_FIELDS`
abbrev pub supported_top_level_fields : List String
supported_top_level_fields = "version" ∷ "name" ∷ "services" ∷ "volumes" ∷ []

abbrev pub is_unknown_field : String → Bool
is_unknown_field key = not (member key supported_top_level_fields) && not (is_extension key)

-- a text with something but spaces in it
abbrev pub is_written : Value → Bool
is_written (str s) = not (is_empty (strip s))
is_written v = false

abbrev pub is_boolean : Value → Bool
is_boolean (bool b) = true
is_boolean v = false

abbrev pub passes_if_given : String → (Value → Bool) → Value → Bool
passes_if_given key test definition = not (has_key key definition) || test (get_key key definition)

abbrev pub check_volume_fields : String → Value → Result (Unit {0})
check_volume_fields name null = ok tt
check_volume_fields name (mapping end) = ok tt
check_volume_fields name (mapping (entry k v es)) = do
  let definition = mapping (entry k v es)
  refuse_keys ("Compose volume " ∷ name ∷ " uses unsupported fields: " ∷ [])
      (unsupported ("name" ∷ "external" ∷ []) (key_list (entry k v es)))
  refuse_if (not (passes_if_given "name" is_written definition))
      (concat ("Compose volume " ∷ name ∷ " has an invalid name" ∷ []))
  refuse_if (not (passes_if_given "external" is_boolean definition))
      (concat ("Compose volume " ∷ name ∷ " has an invalid external flag" ∷ []))
check_volume_fields name v = reject (concat ("Compose volume " ∷ name ∷ " is invalid" ∷ []))

-- a volume of the document
abbrev pub check_volume : String × Value → Result (Unit {0})
check_volume (name, definition) =
    if name == ""
    then reject "Compose volume name is invalid"
    else check_volume_fields name definition

abbrev pub check_volumes : Value → Result (Unit {0})
check_volumes null = ok tt
check_volumes (mapping es) = do checked ← each check_volume (entry_list es); ok tt
check_volumes v = reject "Compose top-level volumes must be a mapping"

unfoldable pub validate_top_level : Value → Result (Unit {0})
validate_top_level (mapping es) = do
  refuse_keys ("Compose document uses unsupported top-level fields: " ∷ [])
      (sort (keys_with is_unknown_field (key_list es)))
  check_volumes (get_key "volumes" (mapping es))
validate_top_level v = reject "Compose document must be a mapping"

abbrev pub named_services : Value → Result (Dict String Value)
named_services (mapping (entry k v es)) =
    if all (λ (p : String × Value). is_mapping p.1) (entry_list (entry k v es))
    then ok (entry_list (entry k v es))
    else reject "Compose services must be named mappings"
named_services v = reject "Compose document must contain services"

unfoldable pub compose_services : Value → Result (Dict String Value)
compose_services (mapping es) = named_services (get_key "services" (mapping es))
compose_services v = reject "Compose document must be a mapping"

abbrev pub validate_service_name : String → Result (Unit {0})
validate_service_name name =
    refuse_if (not (fullmatch resource_name_pattern (codes name))) "Compose service name is invalid"

abbrev pub validate_service_image : String → Value → Result (Unit {0})
validate_service_image name definition =
    refuse_if (not (is_written (get_key "image" definition)))
      (concat ("Compose service " ∷ name ∷ " must define an image" ∷ []))

-- The fuel of the order is always enough.
abbrev pub order_or_reject : Outcome (List String) → Result (List String)
order_or_reject (done order) = ok order
order_or_reject (failed message) = reject message
order_or_reject out_of_fuel = reject ""

abbrev pub check_named : Bool → String × Value → Result (Unit {0})
check_named require_images (name, definition) = do
  validate_service_name name
  if require_images then validate_service_image name definition else ok tt

-- `repr` is Python's `str` of a list or of a mapping, and `parse_bytes` docker.utils.parse_bytes.
module _ (repr : Value → String) (parse_bytes : String → Result (Bool × ℕ)) where
  unfoldable pub validate_compose : Value → Bool → Result (Unit {0})
  validate_compose compose require_images = do
    validate_top_level compose
    services ← compose_services compose
    validate_compose_features repr parse_bytes services
    order ← order_or_reject (deployment_order services)
    named ← each (check_named require_images) services
    ok tt

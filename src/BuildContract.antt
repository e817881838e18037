-- ===== src/BuildContract.antt =====
-- orchestrator/compose_contract.py: the rules for the local Dockerfile builds of a Compose document.
-- `PurePosixPath` is what Python's pathlib makes of a text: its parts, and whether it is absolute.
pub mod Contained
use Prim.Native.Char.{code}
use Prim.Native.String.{[] as no_chars, ◌∷◌ as ◌∷ₛ◌}
use docker_jenkins_orchestra.Prelude.{
  ℕ, String, Bool, true, false, ◌||◌, List, [], ◌∷◌, if◌then◌else◌, ◌==◌, nat_eq, string_eq, concat,
  any,
}
use docker_jenkins_orchestra.Models.Value.{
  Value, str, mapping, Entries, end, entry, get_key, is_mapping,
}
use docker_jenkins_orchestra.Text.Strings.{strip, split, starts_with_any, is_empty}

-- `ComposeBuildContractError`, or the value
pub data Contract (A : Type 0) : Type 0 where
  accepted : A → Contract A
  contract_error : String → Contract A

infixl 10 ◌>>=◌ ◌>>◌
abbrev pub ◌>>=◌ : {A B : Type 0} → Contract A → (A → Contract B) → Contract B
accepted a >>= f = f a
contract_error e >>= f = contract_error e

abbrev pub ◌>>◌ : {A B : Type 0} → Contract A → Contract B → Contract B
m >> n = m >>= λ _. n

-- `mark in text`
unfoldable pub has_code : ℕ → String → Bool
has_code mark no_chars = false
has_code mark (◌∷ₛ◌ c s) = let rest = has_code mark s in code c == mark || rest

-- the parts of a relative path: neither an empty one nor a dot is kept
unfoldable pub kept_parts : List String → List String
kept_parts [] = []
kept_parts (p ∷ ps) = let rest = kept_parts ps in if p == "" || p == "." then rest else p ∷ rest

abbrev pub path_parts : String → List String
path_parts text = kept_parts (split b'/' text)

abbrev pub is_absolute : String → Bool
is_absolute text = starts_with_any (b'/' ∷ []) text

abbrev pub unsafe_path : String → Contract (Unit {0})
unsafe_path label = contract_error (concat (label ∷ " must be a safe relative POSIX path" ∷ []))

-- `_validate_relative_build_path`; 92 is the backslash
unfoldable pub validate_relative_build_path : Value → String → Contract (Unit {0})
validate_relative_build_path (str text) label =
    if is_empty (strip text)
    then contract_error (concat (label ∷ " is required" ∷ []))
    else if has_code 92 text || has_code 0 text || starts_with_any (b'~' ∷ []) text
    then unsafe_path label
    else if is_absolute text || any (λ p. p == "..") (path_parts text)
    then unsafe_path label
    else accepted tt
validate_relative_build_path _ label = contract_error (concat (label ∷ " is required" ∷ []))

-- `values[key] = value`: a known key keeps its place
unfoldable pub set_entry : String → Value → Entries → Entries
set_entry key value end = entry key value end
set_entry key value (entry k v es) =
    if k == key then entry k value es else entry k v (set_entry key value es)

abbrev pub build_label : String → String → String
build_label service_name field = concat ("Compose service " ∷ service_name ∷ " build." ∷ field ∷ [])

unfoldable pub normalize_local_build : Value → String → Contract Value
normalize_local_build (mapping build) service_name = do
  let context = get_key "context" (mapping build)
  let dockerfile = get_key "dockerfile" (mapping build)
  validate_relative_build_path context (build_label service_name "context")
  validate_relative_build_path dockerfile (build_label service_name "dockerfile")
  accepted (mapping (set_entry "dockerfile" dockerfile (set_entry "context" context build)))
normalize_local_build _ service_name = contract_error (
    concat (
      "Compose service " ∷ service_name
      ∷ " must use local build mode with build.context and build.dockerfile" ∷ []))

-- the loop over the services
unfoldable pub validate_services : Entries → Contract (Unit {0})
validate_services end = accepted tt
validate_services (entry name service rest) =
    if is_mapping service
    then (do normalize_local_build (get_key "build" service) name; validate_services rest)
    else contract_error "Compose services must be named mappings"

abbrev pub validate_service_map : Value → Contract (Unit {0})
validate_service_map (mapping (entry k v es)) = validate_services (entry k v es)
validate_service_map _ = contract_error "Compose document must contain a non-empty services mapping"

unfoldable pub validate_local_build_compose : Value → Contract (Unit {0})
validate_local_build_compose (mapping es) = validate_service_map (get_key "services" (mapping es))
validate_local_build_compose _ = contract_error "Compose document must be a mapping"

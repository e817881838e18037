-- ===== src/Examples/Contracts.antt =====
-- A Compose document with one local build.
use docker_jenkins_orchestra.Prelude.{◌≡◌, refl, some, nat_eq, string_eq, option_eq, pair_eq}
use docker_jenkins_orchestra.Prelude.Dict.{lookup}
use docker_jenkins_orchestra.Models.Value.{
  Value, str, mapping, Entries, end, entry, entry_list, get_key,
}
use docker_jenkins_orchestra.Text.Strings.{strip, lstrip, rstrip, split}
use docker_jenkins_orchestra.BuildContract.{
  accepted, has_code, kept_parts, validate_relative_build_path, set_entry, normalize_local_build,
  validate_services, validate_local_build_compose,
}
use docker_jenkins_orchestra.BuildContract.Contained.{
  LeadsDown, validate_local_build_compose_contained,
}

abbrev web : Value
web = mapping (
    entry "build"
      (mapping (entry "context" (str "./web") (entry "dockerfile" (str "docker/Dockerfile") end)))
      end)

abbrev services : Entries
services = entry "web" web end

abbrev document : Value
document = mapping (entry "services" (mapping services) end)

allowed : validate_local_build_compose document ≡ accepted tt
unfolding validate_local_build_compose validate_services normalize_local_build set_entry
    validate_relative_build_path has_code kept_parts strip lstrip rstrip split lookup
allowed = refl

read_services : get_key "services" document ≡ mapping services
unfolding lookup
read_services = refl

found : lookup "web" (entry_list services) ≡ some web
unfolding lookup
found = refl

validate_local_build_compose_contained_example : LeadsDown (get_key "build" web)
validate_local_build_compose_contained_example =
    validate_local_build_compose_contained document services "web" web allowed read_services found

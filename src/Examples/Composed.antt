-- ===== src/Examples/Composed.antt =====
-- Compose documents, on concrete inputs.
use docker_jenkins_orchestra.Prelude.{
  ℕ, String, ◌≡◌, refl, Bool, true, false, none, some, List, [], ◌∷◌, arith, nat_eq, string_eq,
  option_eq, pair_eq, All,
}
use docker_jenkins_orchestra.Prelude.Dict.{lookup, Dict}
use docker_jenkins_orchestra.Models.Value.{
  Value, bool, int, str, sequence, mapping, nil, cons, end, entry,
}
use docker_jenkins_orchestra.Deployment.Order.{deployment_order, done}
use docker_jenkins_orchestra.Deployment.Ports.{PublishedPort}
use docker_jenkins_orchestra.Compose.Ports.{ports, short_port}
use docker_jenkins_orchestra.Compose.Ports.Bounds.{IsValid, ports-IsValid}
use docker_jenkins_orchestra.Compose.Ports.RoundTrip.{written, short_port-written}
use docker_jenkins_orchestra.Compose.Health.{duration_ns}
use docker_jenkins_orchestra.Compose.Resources.{cpu_nano}
use docker_jenkins_orchestra.Compose.Document.{validate_compose, compose_services}
use docker_jenkins_orchestra.Compose.Accepted.{HasSettings, HasKnownFields, validate_compose_sound}
use docker_jenkins_orchestra.Prelude.Dict.{insert}
use docker_jenkins_orchestra.Text.Strings.{
  strip, rstrip, lstrip, rsplit_first, split, split_first, int_text,
}
use docker_jenkins_orchestra.Text.Decimal.{decimal, decimal_onto}
use docker_jenkins_orchestra.Text.Rounded.{take_digits, sum, times_int, round_28}
use docker_jenkins_orchestra.Text.Regex.{fullmatch}
use docker_jenkins_orchestra.Naming.{
  external_namespace, encode_namespace, validate_appid, is_docker_repository_component,
}
use docker_jenkins_orchestra.Deployment.Order.{
  dependencies, dependency_names, rounds, ready, advance, without, sort,
}
use docker_jenkins_orchestra.Compose.Ports.{port_number, long_port}
use docker_jenkins_orchestra.Compose.Environment.{
  environment, labels, namespace_of, is_env_key, command, text_of,
}
use docker_jenkins_orchestra.Compose.Mounts.{mounts, short_mount, shm_mount}
use docker_jenkins_orchestra.Compose.Health.{duration_parts, duration_part, healthcheck}
use docker_jenkins_orchestra.Compose.Deploy.{mode, restart_policy}
use docker_jenkins_orchestra.Compose.Resources.{parse_decimal, resources}
use docker_jenkins_orchestra.Compose.Features.{
  working_dir, check_definition, check_conversions, check_deploy, check_dependencies,
  validate_compose_features,
}
use docker_jenkins_orchestra.Compose.Document.{validate_top_level}
use docker_jenkins_orchestra.World.{Result, ok}

abbrev port_list : Value
port_list =
    sequence (cons (str " 8080:80/udp ") (cons (mapping (entry "target" (int 443) end)) nil))

abbrev two_ports : List PublishedPort
two_ports =
    record { target_port = 80; published_port = some 8080; protocol = "udp"; mode = "ingress" }
    ∷ record { target_port = 443; published_port = none; protocol = "tcp"; mode = "ingress" }
    ∷ []

read_ports : ports port_list ≡ ok two_ports
unfolding ports short_port strip rstrip lstrip rsplit_first split split_first int_text port_number
    long_port lookup
read_ports = refl

ports-IsValid_example : All IsValid two_ports
ports-IsValid_example = ports-IsValid port_list two_ports read_ports

short_port-written_example :
    short_port (written 8080 80 "udp")
    ≡ ok (record {
      target_port = 80;
      published_port = some 8080;
      protocol = "udp";
      mode = "ingress";
    })
short_port-written_example =
    short_port-written 8080 80 "udp" (omega arith, omega arith) (omega arith, omega arith) refl

-- `1m30.5s`
ninety : duration_ns (str "1m30.5s") ≡ ok 90500000000
unfolding duration_ns strip rstrip lstrip duration_parts duration_part take_digits sum times_int
    round_28 decimal decimal_onto
ninety = refl

abbrev repr : Value → String
repr v = "{}"

-- digits are bytes; what docker.utils reads besides is left out
abbrev parse_bytes : String → Result (Bool × ℕ)
parse_bytes s = ok (false, 1)

half_cpu : cpu_nano repr parse_bytes (str "0.5") ≡ ok 500000000
unfolding cpu_nano parse_decimal strip rstrip lstrip text_of take_digits times_int round_28 decimal
    decimal_onto
half_cpu = refl

abbrev api : Value
api = mapping (
    entry "image" (str "api:1") (
      entry "ports" port_list (
        entry "environment" (mapping (entry "B" (bool true) (entry "A" (int 1) end))) (
          entry "depends_on" (sequence (cons (str "db") nil))
            (entry "volumes" (sequence (cons (str "data:/data") nil)) end)))))

abbrev db : Value
db = mapping (
    entry "image" (str "db:1") (
      entry "healthcheck" (mapping (entry "test" (str "true") end))
        (entry "deploy" (mapping (entry "replicas" (int 2) end)) end)))

abbrev document : Value
document = mapping (entry "services" (mapping (entry "api" api (entry "db" db end))) end)

accepted : validate_compose repr parse_bytes document true ≡ ok tt
unfolding validate_compose validate_top_level compose_services validate_compose_features
    check_definition check_conversions check_deploy check_dependencies environment labels
    namespace_of external_namespace encode_namespace validate_appid is_docker_repository_component
    fullmatch is_env_key command working_dir mounts short_mount shm_mount healthcheck mode
    restart_policy resources deployment_order dependencies dependency_names rounds ready advance
    without sort text_of decimal decimal_onto ports short_port strip rstrip lstrip rsplit_first
    split split_first int_text port_number long_port lookup insert
accepted = refl

validate_compose_sound_example :
    (services : Dict String Value) × (order : List String) × (compose_services document
      ≡ ok services)
    × (deployment_order services ≡ done order)
    × All (λ service. HasSettings repr parse_bytes service × HasKnownFields service) services
validate_compose_sound_example = validate_compose_sound repr parse_bytes document true accepted

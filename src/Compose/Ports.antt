-- ===== src/Compose/Ports.antt =====
-- The published ports of a Compose service: `_ports`, `_short_port`, `_long_port` and `_port_number`.
pub mod Bounds
pub mod RoundTrip
use docker_jenkins_orchestra.Prelude.{
  ℕ, zero, suc, ◌+◌, ◌-◌, ◌*◌, ◌/◌, ◌%◌, ◌^◌, ◌≤◌, ◌<◌, String, ◌≡◌, refl, sym, ap, ◌∙◌, ◌≢◌, ◌↔◌,
  ◌⊎◌, inl, inr, Bool, true, false, not, ◌&&◌, ◌||◌, Option, none, some, List, [], ◌∷◌, ◌++◌, map,
  arith, eq_iff, ltb, leb, nat_beq, if◌then◌else◌, nat_beq_iff, leb_iff, ltb_iff, Eq, ◌==◌, nat_eq,
  string_eq, concat, Bool-cases, Option-cases, is_some, ==-refl, option_eq, pair_eq, length, take,
  drop, all, any, length-append, length-take, length-drop, All, All-append,
}
use docker_jenkins_orchestra.Text.Strings.{strip, is_empty, rsplit_first, split, int_text}
use docker_jenkins_orchestra.Text.Decimal.{decimal}
use docker_jenkins_orchestra.Models.Value.{
  negative, Value, null, bool, int, str, sequence, mapping, Entries, item_list, get_key, get_or,
  Items, nil, cons, entry, end,
}
use docker_jenkins_orchestra.Compose.Checked.{reject, ◌>>=◌, ◌>>◌, refuse_if, each}
use docker_jenkins_orchestra.Deployment.Ports.{PublishedPort}
use docker_jenkins_orchestra.World.{Result, ok, err}

-- `protocol in _PORT_PROTOCOLS`
abbrev pub is_protocol : String → Bool
is_protocol protocol = protocol == "tcp" || protocol == "udp" || protocol == "sctp"

abbrev pub is_mode : String → Bool
is_mode mode = mode == "ingress" || mode == "host"

-- `int(value)`, or `none` where it raises; texts in ASCII
abbrev pub int_value : Value → Option (Bool × ℕ)
int_value (int n) = some (false, n)
int_value (negative n) = some (true, n + 1)
int_value (str s) = int_text s
int_value v = none

abbrev pub in_port_range : Option (Bool × ℕ) → Result ℕ
in_port_range (some (false, n)) =
    if leb 1 n && leb n 65535 then ok n else reject "Compose service port is invalid"
in_port_range _ = reject "Compose service port is invalid"

-- `isinstance(value, bool)` is refused before `int`, which `int_value` leaves out.
unfoldable pub port_number : Value → Result ℕ
port_number v = in_port_range (int_value v)

abbrev pub from_parts : String → List String → Result PublishedPort
from_parts protocol (target ∷ []) = do
  inside ← port_number (str target)
  ok (record { target_port = inside; published_port = none; protocol = protocol; mode = "ingress" })
from_parts protocol (published ∷ (target ∷ [])) = do
  outside ← port_number (str published)
  inside ← port_number (str target)
  ok (record {
    target_port = inside;
    published_port = some outside;
    protocol = protocol;
    mode = "ingress";
  })
from_parts protocol parts =
    reject "Compose host-IP and port-range bindings are not supported for Swarm services"

abbrev pub or_tcp : String → Option (String × String) → String × String
or_tcp value none = (value, "tcp")
or_tcp value (some parts) = parts

unfoldable pub short_port : String → Result PublishedPort
short_port raw = do
  refuse_if (is_empty (strip raw)) "Compose service port is invalid"
  let (value, protocol) = or_tcp (strip raw) (rsplit_first b'/' (strip raw))
  refuse_if (not (is_protocol protocol)) "Compose service port protocol is invalid"
  from_parts protocol (split b':' value)

abbrev pub optional_port : Value → Result (Option ℕ)
optional_port null = ok none
optional_port v = do n ← port_number v; ok (some n)

-- protocol and mode, if both are texts that are allowed
abbrev pub protocol_mode : Value → Value → Result (String × String)
protocol_mode (str protocol) (str mode) =
    if is_protocol protocol && is_mode mode
    then ok (protocol, mode)
    else reject "Compose service port is invalid"
protocol_mode _ _ = reject "Compose service port is invalid"

-- `raw.get("host_ip") not in (None, "")`
abbrev pub has_host_ip : Value → Bool
has_host_ip null = false
has_host_ip (str s) = not (s == "")
has_host_ip v = true

unfoldable pub long_port : Value → Result PublishedPort
long_port raw = do
  target ← port_number (get_key "target" raw)
  published ← optional_port (get_key "published" raw)
  (protocol, mode) ←
      protocol_mode (get_or "protocol" (str "tcp") raw) (get_or "mode" (str "ingress") raw)
  refuse_if (has_host_ip (get_key "host_ip" raw))
      "Compose host-IP bindings are not supported for Swarm services"
  ok (record { target_port = target; published_port = published; protocol = protocol; mode = mode })

abbrev pub port_item : Value → Result PublishedPort
port_item (str s) = short_port s
port_item (mapping es) = long_port (mapping es)
port_item v = reject "Compose service port is invalid"

unfoldable pub ports : Value → Result (List PublishedPort)
ports null = ok []
ports (sequence vs) = each port_item (item_list vs)
ports v = reject "Compose service ports must be a list"

abbrev pub published_entry : Option ℕ → Entries
published_entry none = end
published_entry (some n) = entry "PublishedPort" (int n) end

-- `PublishedPort.endpoint_spec`
unfoldable pub port_spec : PublishedPort → Value
port_spec port = mapping (
    entry "Protocol" (str port.protocol) (
      entry "TargetPort" (int port.target_port)
        (entry "PublishMode" (str port.mode) (published_entry port.published_port))))

abbrev pub port_specs : List PublishedPort → Items
port_specs [] = nil
port_specs (p ∷ ps) = cons (port_spec p) (port_specs ps)

-- `_endpoint_spec`
unfoldable pub endpoint_spec : List PublishedPort → Option Value
endpoint_spec [] = none
endpoint_spec (p ∷ ps) =
    some (mapping (entry "Mode" (str "vip") (entry "Ports" (sequence (port_specs (p ∷ ps))) end)))

-- `_endpoint`
unfoldable pub endpoint : String → List PublishedPort → Option String
endpoint service_name [] = none
endpoint service_name (port ∷ ports) = elim port.published_port [
  | none ↦ endpoint service_name ports
  | some n ↦ some (concat (service_name ∷ ":" ∷ decimal n ∷ []))
]

-- ===== src/Compose/Ports/Bounds.antt =====
-- Every port that is accepted has numbers, a protocol and a mode that Swarm knows.
use docker_jenkins_orchestra.Prelude.{
  ℕ, ◌≤◌, String, ◌≡◌, refl, sym, inl, inr, Bool, true, false, not, ◌&&◌, Option, none, some, List,
  [], ◌∷◌, arith, leb, leb_iff, nat_eq, string_eq, Bool-cases, option_eq, pair_eq, All, &&-both,
}
use docker_jenkins_orchestra.Text.Strings.{strip, is_empty, rsplit_first}
use docker_jenkins_orchestra.Models.Value.{
  Value, null, bool, int, negative, str, sequence, mapping, item_list, get_key, get_or,
}
use docker_jenkins_orchestra.Compose.Checked.{
  reject, refuse_if, bind-ok, each-All, refuse_if-ok, ◌>>=◌,
}
use docker_jenkins_orchestra.Compose.Ports.{
  is_protocol, is_mode, in_port_range, int_value, port_number, from_parts, or_tcp, short_port,
  optional_port, protocol_mode, has_host_ip, long_port, port_item, ports,
}
use docker_jenkins_orchestra.Deployment.Ports.{PublishedPort}
use docker_jenkins_orchestra.World.{ok}

abbrev pub InRange : ℕ → Type 0
InRange n = (1 ≤ n) × (n ≤ 65535)

abbrev pub PublishedInRange : Option ℕ → Type 0
PublishedInRange none = Unit
PublishedInRange (some n) = InRange n

abbrev pub IsValid : PublishedPort → Type 0
IsValid p =
    InRange p.target_port
    × PublishedInRange p.published_port
    × (is_protocol p.protocol ≡ true)
    × (is_mode p.mode ≡ true)

in_port_range-InRange : (o : Option (Bool × ℕ)) (n : ℕ) → in_port_range o ≡ ok n → InRange n
in_port_range-InRange none n h = cc h
in_port_range-InRange (some (true, m)) n h = cc h
in_port_range-InRange (some (false, m)) n h = elim (Bool-cases (leb 1 m && leb m 65535)) [
  | inl inside ↦
      let e : ok m ≡ ok n = rw inside at h in
      let same : m ≡ n = cc e in rw (sym same) (ground (arith, leb_iff 1 m, leb_iff m 65535))
  | inr outside ↦ let e : reject "Compose service port is invalid" ≡ ok n = rw outside at h in cc e
]

port_number-InRange : (v : Value) (n : ℕ) → port_number v ≡ ok n → InRange n
unfolding port_number
port_number-InRange v n h = in_port_range-InRange (int_value v) n h

from_parts-IsValid :
    (protocol : String) (parts : List String) (p : PublishedPort)
    → is_protocol protocol ≡ true
    → from_parts protocol parts ≡ ok p
    → IsValid p
from_parts-IsValid protocol [] p known h = cc h
from_parts-IsValid protocol (target ∷ []) p known h =
    let (inside, a, h1) = bind-ok (port_number (str target)) _ h in
    let made : record {
      target_port = inside;
      published_port = none;
      protocol = protocol;
      mode = "ingress";
    }
        ≡ p =
      cc h1 in
    rw (sym made) (port_number-InRange (str target) inside a, tt, known, refl)
from_parts-IsValid protocol (published ∷ (target ∷ [])) p known h =
    let (outside, b, h1) = bind-ok (port_number (str published)) _ h in
    let (inside, a, h2) = bind-ok (port_number (str target)) _ h1 in
    let made : record {
      target_port = inside;
      published_port = some outside;
      protocol = protocol;
      mode = "ingress";
    }
        ≡ p =
      cc h2 in
    rw (sym made) (
      port_number-InRange (str target) inside a,
      port_number-InRange (str published) outside b,
      known,
      refl,
    )
from_parts-IsValid protocol (a ∷ (b ∷ (c ∷ parts))) p known h = cc h

short_port-IsValid : (raw : String) (p : PublishedPort) → short_port raw ≡ ok p → IsValid p
unfolding short_port
short_port-IsValid raw p h =
    let (_, _, h1) = bind-ok (refuse_if (is_empty (strip raw)) _) _ h in
    let (_, known, h2) = bind-ok (refuse_if _ "Compose service port protocol is invalid") _ h1 in
    let protocol = (or_tcp (strip raw) (rsplit_first b'/' (strip raw))).1 in
    let allowed : not (is_protocol protocol) ≡ false = refuse_if-ok _ _ known in
    from_parts-IsValid protocol _ p (ground arith) h2

port_number-some-InRange :
    (v : Value) (o : Option ℕ) → (port_number v >>= λ n. ok (some n)) ≡ ok o → PublishedInRange o
port_number-some-InRange v o h =
    let (n, a, h1) = bind-ok (port_number v) _ h in
    let made : some n ≡ o = cc h1 in rw (sym made) (port_number-InRange v n a)

optional_port-InRange : (v : Value) (o : Option ℕ) → optional_port v ≡ ok o → PublishedInRange o
optional_port-InRange null o h = let made : none ≡ o = cc h in rw (sym made) tt
optional_port-InRange (bool b) o h = port_number-some-InRange (bool b) o h
optional_port-InRange (int n) o h = port_number-some-InRange (int n) o h
optional_port-InRange (negative n) o h = port_number-some-InRange (negative n) o h
optional_port-InRange (str s) o h = port_number-some-InRange (str s) o h
optional_port-InRange (sequence vs) o h = port_number-some-InRange (sequence vs) o h
optional_port-InRange (mapping es) o h = port_number-some-InRange (mapping es) o h

-- What a check on a protocol and a mode lets through.
abbrev Known : String × String → Type 0
Known p = (is_protocol p.0 ≡ true) × (is_mode p.1 ≡ true)

protocol_mode-Known : (a b : Value) (p : String × String) → protocol_mode a b ≡ ok p → Known p
protocol_mode-Known (str a) (str b) p h = elim (Bool-cases (is_protocol a && is_mode b)) [
  | inl known ↦
      let e : ok (a, b) ≡ ok p = rw known at h in
      let same : (a, b) ≡ p = cc e in rw (sym same) (&&-both (is_protocol a) (is_mode b) known)
  | inr unknown ↦ let e : reject "Compose service port is invalid" ≡ ok p = rw unknown at h in cc e
]
protocol_mode-Known a b p h = cc h

long_port-IsValid : (raw : Value) (p : PublishedPort) → long_port raw ≡ ok p → IsValid p
unfolding long_port
long_port-IsValid raw p h =
    let (target, a, h1) = bind-ok (port_number (get_key "target" raw)) _ h in
    let (published, b, h2) = bind-ok (optional_port (get_key "published" raw)) _ h1 in
    let (both, c, h3) =
      bind-ok
        (protocol_mode (get_or "protocol" (str "tcp") raw) (get_or "mode" (str "ingress") raw)) _
        h2 in
    let (_, _, h4) = bind-ok (refuse_if (has_host_ip (get_key "host_ip" raw)) _) _ h3 in
    let (protocol_known, mode_known) =
      protocol_mode-Known (get_or "protocol" (str "tcp") raw) (get_or "mode" (str "ingress") raw)
        both c in
    let made : record {
      target_port = target;
      published_port = published;
      protocol = both.0;
      mode = both.1;
    }
        ≡ p =
      cc h4 in
    rw (sym made) (
      port_number-InRange _ target a,
      optional_port-InRange _ published b,
      protocol_known,
      mode_known,
    )

port_item-IsValid : (v : Value) (p : PublishedPort) → port_item v ≡ ok p → IsValid p
port_item-IsValid (str s) p h = short_port-IsValid s p h
port_item-IsValid (mapping es) p h = long_port-IsValid (mapping es) p h
port_item-IsValid v p h = cc h

-- Whatever is written under `ports`, when the conversion succeeds then every port it gives has a
-- target from 1 to 65535, a published port from 1 to 65535 or none, one of the protocols tcp, udp
-- and sctp, and one of the modes ingress and host.
pub ports-IsValid : (v : Value) (ps : List PublishedPort) → ports v ≡ ok ps → All IsValid ps
unfolding ports
ports-IsValid null ps h = let made : [] ≡ ps = cc h in rw (sym made) tt
ports-IsValid (sequence vs) ps h = each-All port_item IsValid port_item-IsValid (item_list vs) ps h
ports-IsValid v ps h = cc h

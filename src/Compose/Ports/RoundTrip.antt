-- ===== src/Compose/Ports/RoundTrip.antt =====
-- The short form of a port, written out and read back.
use Prim.Native.String.{[] as no_chars, ◌∷◌ as ◌∷ₛ◌}
use docker_jenkins_orchestra.Prelude.{
  ℕ, String, ◌≡◌, refl, ap, ◌∙◌, inl, inr, true, some, [], ◌∷◌, arith, leb_iff, ◌==◌, nat_eq,
  string_eq, Bool-cases, option_eq, pair_eq,
}
use docker_jenkins_orchestra.Text.Strings.{strip, rstrip, rsplit_first, split, or_here}
use docker_jenkins_orchestra.Text.Decimal.{
  decimal_onto, decimal, int_text-decimal, strip-decimal_onto, rstrip-decimal_onto,
  rsplit_first-decimal_onto, split-decimal_onto, is_empty-decimal_onto,
}
use docker_jenkins_orchestra.Models.Value.{str}
use docker_jenkins_orchestra.Compose.Ports.{is_protocol, in_port_range, port_number, short_port}
use docker_jenkins_orchestra.Compose.Ports.Bounds.{InRange}
use docker_jenkins_orchestra.World.{ok}

-- a published port, a target port and a protocol in Compose's short form
abbrev pub written : ℕ → ℕ → String → String
written published target protocol =
    decimal_onto published (◌∷ₛ◌ ":" (decimal_onto target (◌∷ₛ◌ "/" protocol)))

port_number-decimal : (n : ℕ) → InRange n → port_number (str (decimal n)) ≡ ok n
unfolding port_number
port_number-decimal n (low, high) =
    ap in_port_range (int_text-decimal n) ∙ rw ((leb_iff 1 n).1 low, (leb_iff n 65535).1 high)

-- What the conversion needs to know of the end of the text.
abbrev IsEnd : String → Type 0
IsEnd protocol =
    (rstrip (◌∷ₛ◌ "/" protocol) ≡ ◌∷ₛ◌ "/" protocol)
    × (rsplit_first b'/' (◌∷ₛ◌ "/" protocol) ≡ some (no_chars, protocol))

is_protocol-IsEnd : (protocol : String) → is_protocol protocol ≡ true → IsEnd protocol
unfolding rstrip rsplit_first
is_protocol-IsEnd protocol known = elim (Bool-cases (protocol == "tcp")) [
  | inl tcp ↦ rw ((string_eq.beq_iff protocol "tcp").0 tcp) (refl, refl)
  | inr not_tcp ↦ elim (Bool-cases (protocol == "udp")) [
    | inl udp ↦ rw ((string_eq.beq_iff protocol "udp").0 udp) (refl, refl)
    | inr not_udp ↦
        let sctp : (protocol == "sctp") ≡ true = rw (not_tcp, not_udp) at known in
        rw ((string_eq.beq_iff protocol "sctp").0 sctp) (refl, refl)
  ]
]

strip-written :
    (a b : ℕ) (protocol : String)
    → IsEnd protocol
    → strip (written a b protocol) ≡ written a b protocol
unfolding rstrip
strip-written a b protocol (h, _) =
    strip-decimal_onto a (◌∷ₛ◌ ":" (decimal_onto b (◌∷ₛ◌ "/" protocol)))
      (ap (◌∷ₛ◌ ":") (rstrip-decimal_onto b (◌∷ₛ◌ "/" protocol) h))

rsplit_first-written :
    (a b : ℕ) (protocol : String)
    → IsEnd protocol
    → rsplit_first b'/' (written a b protocol)
      ≡ some (decimal_onto a (◌∷ₛ◌ ":" (decimal b)), protocol)
unfolding rsplit_first decimal
rsplit_first-written a b protocol (_, h) =
    rsplit_first-decimal_onto b'/' (inl (omega arith)) a _ (◌∷ₛ◌ ":" (decimal b)) protocol (
      ap (or_here b'/' ":" (decimal_onto b (◌∷ₛ◌ "/" protocol))) (
        rsplit_first-decimal_onto b'/' (inl (omega arith)) b (◌∷ₛ◌ "/" protocol) no_chars protocol
          h))

split-written :
    (a b : ℕ) → split b':' (decimal_onto a (◌∷ₛ◌ ":" (decimal b))) ≡ decimal a ∷ decimal b ∷ []
unfolding split decimal
split-written a b =
    split-decimal_onto b':' (inr (omega arith)) a (◌∷ₛ◌ ":" (decimal b)) no_chars (decimal b ∷ []) (
      ap (λ parts. no_chars ∷ parts)
        (split-decimal_onto b':' (inr (omega arith)) b no_chars no_chars [] refl))

-- Every text `published:target/protocol` that is made of two numbers from 1 to 65535 and a known
-- protocol is read back as that port, in mode ingress.
pub short_port-written :
    (published target : ℕ) (protocol : String)
    → InRange published
    → InRange target
    → is_protocol protocol ≡ true
    → short_port (written published target protocol)
      ≡ ok (record {
        target_port = target;
        published_port = some published;
        protocol = protocol;
        mode = "ingress";
      })
unfolding short_port
short_port-written published target protocol a b known =
    let end = is_protocol-IsEnd protocol known in
    rw (
      strip-written published target protocol end,
      rsplit_first-written published target protocol end,
      is_empty-decimal_onto published (◌∷ₛ◌ ":" (decimal_onto target (◌∷ₛ◌ "/" protocol))),
      known,
      split-written published target,
      port_number-decimal published a,
      port_number-decimal target b,
    )

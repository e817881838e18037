-- ===== src/Text/Rounded.antt =====
-- Python's `Decimal` in its default context, of 28 digits that round half to even, for numbers
-- that are not negative; exponents out of its range are not modelled.
use Prim.Native.Char.{code}
use Prim.Native.String.{[] as no_chars, ◌∷◌ as ◌∷ₛ◌}
use docker_jenkins_orchestra.Prelude.{
  ℕ, ◌+◌, ◌-◌, ◌*◌, ◌/◌, ◌%◌, ◌^◌, String, true, false, ◌&&◌, ltb, leb, if◌then◌else◌, nat_eq,
  string_eq, option_eq, pair_eq, length,
}
use docker_jenkins_orchestra.Text.{codes}
use docker_jenkins_orchestra.Text.Decimal.{decimal}

-- coefficient / 10 ^ scale
pub record Rounded : Type 0 where
  pub coefficient : ℕ
  pub scale : ℕ

abbrev pub half_even : ℕ → ℕ → ℕ
half_even n unit =
    if ltb (n % unit * 2) unit
    then n / unit
    else if ltb unit (n % unit * 2)
    then n / unit + 1
    else n / unit + n / unit % 2

-- a number without its last `extra` digits
abbrev pub drop_digits : ℕ → Rounded → Rounded
drop_digits extra d =
    let kept = half_even d.coefficient (10 ^ extra) in
    if leb extra d.scale
    then record { coefficient = kept; scale = d.scale - extra }
    else record { coefficient = kept * 10 ^ (extra - d.scale); scale = 0 }

unfoldable pub round_28 : Rounded → Rounded
round_28 d =
    let digits = length (codes (decimal d.coefficient)) in
    if leb digits 28 then d else drop_digits (digits - 28) d

unfoldable pub times_int : Rounded → ℕ → Rounded
times_int d n = round_28 (record { coefficient = d.coefficient * n; scale = d.scale })

unfoldable pub sum : Rounded → Rounded → Rounded
sum d e =
    if leb d.scale e.scale
    then round_28 (record {
      coefficient = d.coefficient * 10 ^ (e.scale - d.scale) + e.coefficient;
      scale = e.scale;
    })
    else round_28 (record {
      coefficient = d.coefficient + e.coefficient * 10 ^ (d.scale - e.scale);
      scale = d.scale;
    })

-- `int(d)`
abbrev pub whole_part : Rounded → ℕ
whole_part d = d.coefficient / 10 ^ d.scale

-- the digits in front of a text: their number, how many they are, and what follows
unfoldable pub take_digits : ℕ → ℕ → String → ℕ × ℕ × String
take_digits n count no_chars = (n, count, no_chars)
take_digits n count (◌∷ₛ◌ c s) = elim (leb b'0' (code c) && leb (code c) b'9') [
  | true ↦ take_digits (n * 10 + (code c - b'0')) (count + 1) s
  | false ↦ (n, count, ◌∷ₛ◌ c s)
]

-- ===== src/Compose/Health/Parts.antt =====
-- The loop over the parts of a duration comes to an end.
use Prim.Native.Char.{code}
use Prim.Native.String.{[] as no_chars, ◌∷◌ as ◌∷ₛ◌}
use docker_jenkins_orchestra.Prelude.{
  ℕ, zero, suc, ◌+◌, ◌-◌, ◌*◌, ◌≤◌, ◌<◌, String, ◌≡◌, refl, ◌≢◌, inl, inr, Bool, true, false, ◌&&◌,
  Option, none, some, arith, leb, if◌then◌else◌, ◌==◌, nat_eq, string_eq, Bool-cases, option_eq,
  pair_eq, length,
}
use docker_jenkins_orchestra.Text.{codes}
use docker_jenkins_orchestra.Text.Rounded.{Rounded, take_digits, sum}
use docker_jenkins_orchestra.Deployment.Order.{failed, out_of_fuel}
use docker_jenkins_orchestra.Compose.Health.{
  then_s, or_minutes, duration_unit, fraction, with_fraction, with_unit, numbered, duration_part,
  duration_parts, duration_text,
}

abbrev size : String → ℕ
size s = length (codes s)

-- what a reader of a text has left
abbrev Left {ℓ} : {A : Type ℓ} → ℕ → Option (A × String) → Type 0
Left n none = Unit
Left n (some (a, rest)) = size rest < n

take_digits-size :
    (n count : ℕ) (s : String)
    → size (take_digits n count s).2 + (take_digits n count s).1 ≡ size s + count
unfolding take_digits
take_digits-size n count no_chars = refl
take_digits-size n count (◌∷ₛ◌ c s) = elim (Bool-cases (leb b'0' (code c) && leb (code c) b'9')) [
  | inl digit ↦
      rw (digit, take_digits)
        (omega (arith, take_digits-size (n * 10 + (code c - b'0')) (count + 1) s))
  | inr other ↦ rw (other, take_digits) refl
]

if-Left :
    (n : ℕ) (b : Bool) (x y : Option (ℕ × String))
    → Left n x
    → Left n y
    → Left n (if b then x else y)
if-Left n true x y h k = h
if-Left n false x y h k = k

then_s-Left : (unit n : ℕ) (s : String) → size s ≤ n → Left n (then_s unit s)
then_s-Left unit n no_chars h = tt
then_s-Left unit n (◌∷ₛ◌ c s) h = if-Left n (code c == b's') _ _ (omega (arith, h)) tt

or_minutes-Left :
    (n : ℕ) (s : String) (o : Option (ℕ × String)) → size s < n → Left n o → Left n (or_minutes s o)
or_minutes-Left n s none h k = h
or_minutes-Left n s (some found) h k = k

duration_unit-Left : (n : ℕ) (s : String) → size s ≤ n → Left n (duration_unit s)
duration_unit-Left n no_chars h = tt
duration_unit-Left n (◌∷ₛ◌ c s) h =
    let shorter : size s < n = omega (arith, h) in
    let next : (unit : ℕ) → Left n (then_s unit s) =
      λ unit. then_s-Left unit n s (omega (arith, h)) in
    if-Left n (code c == b's') _ _ shorter (
      if-Left n (code c == b'h') _ _ shorter (
        if-Left n (code c == b'm') _ _
          (or_minutes-Left n s (then_s 1000000 s) shorter (next 1000000))
          (if-Left n (code c == b'n') _ _ (next 1)
            (if-Left n (code c == b'u') _ _ (next 1000) tt))))

with_fraction-size :
    (n : ℕ) (s : String) (p : ℕ × ℕ × String)
    → size p.2 ≤ size s
    → size (with_fraction n s p).1 ≤ size s
with_fraction-size n s (m, zero, rest) h = omega arith
with_fraction-size n s (m, suc count, rest) h = h

fraction-size : (n : ℕ) (s : String) → size (fraction n s).1 ≤ size s
fraction-size n no_chars = omega arith
fraction-size n (◌∷ₛ◌ c s) = elim (Bool-cases (code c == b'.')) [
  | inl point ↦
      rw (point, fraction)
        (with_fraction-size n (◌∷ₛ◌ c s) (take_digits n 0 s)
          (omega (arith, take_digits-size n 0 s)))
  | inr other ↦ rw (other, fraction) (omega arith)
]

with_unit-Left :
    (n : ℕ) (value : Rounded) (o : Option (ℕ × String)) → Left n o → Left n (with_unit value o)
with_unit-Left n value none h = tt
with_unit-Left n value (some (unit, rest)) h = h

numbered-Left : (n : ℕ) (p : ℕ × ℕ × String) → size p.2 + p.1 ≡ n → Left n (numbered p)
numbered-Left n (m, zero, s) h = tt
numbered-Left n (m, suc count, s) h =
    let (value, rest) = fraction m s in
    with_unit-Left n value (duration_unit rest)
      (duration_unit-Left n rest (omega (arith, fraction-size m s, h)))

duration_part-Left : (s : String) → Left (size s) (duration_part s)
unfolding duration_part
duration_part-Left s =
    numbered-Left (size s) (take_digits 0 0 s) (omega (arith, take_digits-size 0 0 s))

duration_parts-fuelled :
    (fuel : ℕ) (total : Rounded) (s : String)
    → size s ≤ fuel
    → duration_parts fuel total s ≢ out_of_fuel
unfolding duration_parts
duration_parts-fuelled fuel total no_chars h e = cc e
duration_parts-fuelled zero total (◌∷ₛ◌ c s) h e = omega (arith, h)
duration_parts-fuelled (suc fuel) total (◌∷ₛ◌ c s) h e =
    by_part (duration_part (◌∷ₛ◌ c s)) (duration_part-Left (◌∷ₛ◌ c s))
      (λ value rest k. duration_parts-fuelled fuel (sum total value) rest k) e
  where
    by_part :
        (o : Option (Rounded × String))
        → Left (suc (size s)) o
        → ((value : Rounded) (rest : String)
            → size rest ≤ fuel
            → duration_parts fuel (sum total value) rest ≢ out_of_fuel)
        → elim o [
          | none ↦ failed "Compose healthcheck duration is invalid"
          | some (value, rest) ↦ duration_parts fuel (sum total value) rest
        ]
          ≢ out_of_fuel
    by_part none left rest_ends e = cc e
    by_part (some (value, rest)) left rest_ends e = rest_ends value rest (omega (arith, left, h)) e

-- The loop over the parts of a duration always comes to an end by itself: a unit of fuel for every
-- character of the text is enough.
pub duration_text-fuelled : (s : String) → duration_text s ≢ out_of_fuel
duration_text-fuelled no_chars e = cc e
duration_text-fuelled (◌∷ₛ◌ c s) e = duration_parts-fuelled _ _ (◌∷ₛ◌ c s) (omega arith) e

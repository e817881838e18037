-- ===== src/Text/Regex.antt =====
-- `re.fullmatch` for the operators that the program's patterns use: classes, sequence, choice and
-- repetition. The matcher takes the derivative of the pattern by one character at a time.
pub mod Language
pub mod Characters
use docker_jenkins_orchestra.Prelude.{
  ℕ, zero, suc, ◌+◌, ◌-◌, ◌*◌, ◌/◌, ◌%◌, ◌^◌, ◌≤◌, ◌<◌, String, ◌≡◌, refl, sym, ap, ◌∙◌, ◌≢◌, ◌↔◌,
  ◌⊎◌, inl, inr, Bool, true, false, not, ◌&&◌, ◌||◌, Option, none, some, List, [], ◌∷◌, ◌++◌, map,
  arith, eq_iff, ltb, leb, nat_beq, if◌then◌else◌, nat_beq_iff, leb_iff, ltb_iff, Eq, ◌==◌, nat_eq,
  string_eq, concat, Bool-cases, Option-cases, is_some, ==-refl, option_eq, pair_eq, length, take,
  drop, all, any, length-append, length-take, length-drop, All, All-append,
}

pub data Regex : Type 0 where
  fail eps : Regex
  cls : (ℕ → Bool) → Regex
  seq alt : Regex → Regex → Regex
  star : Regex → Regex

abbrev pub plus : Regex → Regex
plus r = seq r (star r)

abbrev pub optional : Regex → Regex
optional r = alt eps r

-- `r{n}`
abbrev pub times : ℕ → Regex → Regex
times zero r = eps
times (suc n) r = seq r (times n r)

-- `r{0,n}`
abbrev pub at_most : ℕ → Regex → Regex
at_most zero r = eps
at_most (suc n) r = alt eps (seq r (at_most n r))

abbrev pub char : ℕ → Regex
char c = cls (λ x. x == c)

-- a text, character by character
abbrev pub literal : List ℕ → Regex
literal [] = eps
literal (c ∷ cs) = seq (char c) (literal cs)

pub nullable : Regex → Bool
nullable fail = false
nullable eps = true
nullable (cls p) = false
nullable (seq r s) = nullable r && nullable s
nullable (alt r s) = nullable r || nullable s
nullable (star r) = true

-- sequence and choice, with what cannot match left out
pub seq' : Regex → Regex → Regex
seq' fail s = fail
seq' eps s = s
seq' r s = seq r s

pub alt' : Regex → Regex → Regex
alt' fail s = s
alt' r fail = r
alt' r s = alt r s

pub when : Bool → Regex
when true = eps
when false = fail

pub deriv : ℕ → Regex → Regex
unfolding seq' alt' when nullable
deriv c fail = fail
deriv c eps = fail
deriv c (cls p) = when (p c)
deriv c (seq r s) = alt' (seq' (deriv c r) s) (seq' (when (nullable r)) (deriv c s))
deriv c (alt r s) = alt' (deriv c r) (deriv c s)
deriv c (star r) = seq' (deriv c r) (star r)

unfoldable pub fullmatch : Regex → List ℕ → Bool
unfolding deriv nullable
fullmatch r [] = nullable r
fullmatch r (c ∷ s) = fullmatch (deriv c r) s

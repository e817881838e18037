-- ===== src/Text.antt =====
-- Texts as their code points, and the regular expressions that the program matches them with.
pub mod Regex
pub mod Strings
pub mod Decimal
pub mod Rounded
use Prim.Native.Char.{code}
use Prim.Native.String.{[] as no_chars, ◌∷◌ as ◌∷ₛ◌, char_at}
use docker_jenkins_orchestra.Prelude.{
  ℕ, zero, suc, ◌+◌, ◌-◌, ◌*◌, ◌/◌, ◌%◌, ◌^◌, ◌≤◌, ◌<◌, String, ◌≡◌, refl, sym, ap, ◌∙◌, ◌≢◌, ◌↔◌,
  ◌⊎◌, inl, inr, Bool, true, false, not, ◌&&◌, ◌||◌, Option, none, some, List, [], ◌∷◌, ◌++◌, map,
  arith, eq_iff, ltb, leb, nat_beq, if◌then◌else◌, nat_beq_iff, leb_iff, ltb_iff, Eq, ◌==◌, nat_eq,
  string_eq, concat, Bool-cases, Option-cases, is_some, ==-refl, option_eq, pair_eq, length, take,
  drop, all, any, length-append, length-take, length-drop, All, All-append,
}

abbrev pub codes : String → List ℕ
codes no_chars = []
codes (◌∷ₛ◌ c s) = code c ∷ codes s

abbrev ascii : String
ascii =
    " !\"#$%&'()*+,-./0123456789:;<=>?@ABCDEFGHIJKLMNOPQRSTUVWXYZ[\\]^_`abcdefghijklmnopqrstuvwxyz{|}~"

-- The text of printable ASCII characters, such as a resource name's.
abbrev pub printable : List ℕ → String
printable [] = no_chars
printable (c ∷ cs) = ◌∷ₛ◌ (char_at ascii (c - 32)) (printable cs)

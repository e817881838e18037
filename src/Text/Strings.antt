-- ===== src/Text/Strings.antt =====
-- Python's operations on texts: `strip`, `split`, `startswith` and `int`.
use Prim.Native.Char.{code, Char}
use Prim.Native.String.{[] as no_chars, ◌∷◌ as ◌∷ₛ◌}
use docker_jenkins_orchestra.Prelude.{
  ℕ, zero, suc, ◌+◌, ◌-◌, ◌*◌, String, Bool, true, false, ◌&&◌, ◌||◌, Option, none, some, List, [],
  ◌∷◌, leb, if◌then◌else◌, ◌==◌, nat_eq, string_eq, option_eq, pair_eq, any,
}

-- `str.isspace`
abbrev pub is_space : ℕ → Bool
is_space c =
    (leb 9 c && leb c 13)
    || (leb 28 c && leb c 32)
    || c == 133
    || c == 160
    || c == 5760
    || (leb 8192 c && leb c 8202)
    || c == 8232
    || c == 8233
    || c == 8239
    || c == 8287
    || c == 12288

unfoldable pub lstrip : String → String
lstrip no_chars = no_chars
lstrip (◌∷ₛ◌ c s) = let rest = lstrip s in if is_space (code c) then rest else ◌∷ₛ◌ c s

abbrev pub put_back : Bool → Char → String → String
put_back true c no_chars = no_chars
put_back b c s = ◌∷ₛ◌ c s

unfoldable pub rstrip : String → String
rstrip no_chars = no_chars
rstrip (◌∷ₛ◌ c s) = put_back (is_space (code c)) c (rstrip s)

-- `text.strip()`
unfoldable pub strip : String → String
strip s = rstrip (lstrip s)

abbrev pub add_head : Char → List String → List String
add_head c [] = ◌∷ₛ◌ c no_chars ∷ []
add_head c (s ∷ ss) = ◌∷ₛ◌ c s ∷ ss

-- `text.split(mark)` for a mark of one character
unfoldable pub split : ℕ → String → List String
split mark no_chars = no_chars ∷ []
split mark (◌∷ₛ◌ c s) =
    let rest = split mark s in if code c == mark then no_chars ∷ rest else add_head c rest

abbrev pub extend : Char → Option (String × String) → Option (String × String)
extend c none = none
extend c (some (before, after)) = some (◌∷ₛ◌ c before, after)

-- `text.split(mark, 1)`, and `none` where the mark does not occur
unfoldable pub split_first : ℕ → String → Option (String × String)
split_first mark no_chars = none
split_first mark (◌∷ₛ◌ c s) =
    let rest = split_first mark s in if code c == mark then some (no_chars, s) else extend c rest

abbrev pub or_here : ℕ → Char → String → Option (String × String) → Option (String × String)
or_here mark c s (some parts) = extend c (some parts)
or_here mark c s none = if code c == mark then some (no_chars, s) else none

-- `text.rsplit(mark, 1)`, and `none` where the mark does not occur
unfoldable pub rsplit_first : ℕ → String → Option (String × String)
rsplit_first mark no_chars = none
rsplit_first mark (◌∷ₛ◌ c s) = or_here mark c s (rsplit_first mark s)

-- whether the first character is one of the marks
abbrev pub starts_with_any : List ℕ → String → Bool
starts_with_any marks no_chars = false
starts_with_any marks (◌∷ₛ◌ c s) = any (λ m. code c == m) marks

abbrev pub is_empty : String → Bool
is_empty no_chars = true
is_empty (◌∷ₛ◌ c s) = false

-- digits, with single underscores between them; `after` says that a digit has just been read
abbrev pub digits_from : ℕ → Bool → String → Option ℕ
digits_from n after no_chars = if after then some n else none
digits_from n after (◌∷ₛ◌ c s) = elim (leb b'0' (code c) && leb (code c) b'9') [
  | true ↦ digits_from (n * 10 + (code c - b'0')) true s
  | false ↦ elim (code c == b'_' && after) [ true ↦ digits_from n false s | false ↦ none ]
]

abbrev pub signed_digits : String → Option (Bool × ℕ)
signed_digits no_chars = none
signed_digits (◌∷ₛ◌ c s) = elim (code c == b'-') [
  | true ↦ elim (digits_from 0 false s) [ none ↦ none | some n ↦ some (true, n) ]
  | false ↦ elim (digits_from 0 false (elim (code c == b'+') [ true ↦ s | false ↦ ◌∷ₛ◌ c s ])) [
    | none ↦ none
    | some n ↦ some (false, n)
  ]
]

-- `int(text)`, of a text in ASCII: the sign (true for minus) and the number, or `none` where it
-- raises `ValueError`
unfoldable pub int_text : String → Option (Bool × ℕ)
int_text s = signed_digits (strip s)

-- `text[:n]`
unfoldable pub prefix : ℕ → String → String
prefix zero s = no_chars
prefix (suc n) no_chars = no_chars
prefix (suc n) (◌∷ₛ◌ c s) = ◌∷ₛ◌ c (prefix n s)

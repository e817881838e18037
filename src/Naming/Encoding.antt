-- ===== src/Naming/Encoding.antt =====
-- The characters of names: classes of characters, UTF-8 on ASCII, and hexadecimal digits.
use docker_jenkins_orchestra.Prelude.{
  ℕ, ◌*◌, ◌/◌, ◌%◌, ◌<◌, ◌≡◌, refl, Bool, true, List, [], ◌∷◌, ◌++◌, arith, nat_eq, string_eq,
  ==-refl, option_eq, pair_eq, length, All,
}
use docker_jenkins_orchestra.Text.Regex.{cls, fullmatch}
use docker_jenkins_orchestra.Text.Regex.Language.{Repeats, done, more, Language, fullmatch_sound}
use docker_jenkins_orchestra.Naming.{
  is_lower_alnum, appid_pattern, starts_with, encode_utf8, hex_digit, hex,
}

-- characters and patterns

pub star-All : {p : ℕ → Bool} {s : List ℕ} → Repeats (Language (cls p)) s → All (λ c. p c ≡ true) s
star-All {p} (done e) = rw e tt
star-All {p} (more u v e (c, single, pass) rest) = rw (e, single) (pass, star-All rest)

pub All-star : {p : ℕ → Bool} (s : List ℕ) → All (λ c. p c ≡ true) s → Repeats (Language (cls p)) s
All-star [] h = done refl
All-star (c ∷ s) (pass, h) = more (c ∷ []) s refl (c, refl, pass) (All-star s h)

pub All-mono : {P Q : ℕ → Type 0} → ((c : ℕ) → P c → Q c) → (s : List ℕ) → All P s → All Q s
All-mono f [] h = tt
All-mono f (c ∷ s) (p, h) = (f c p, All-mono f s h)

-- a valid identifier is ASCII and not empty
pub appid-ascii : (s : List ℕ) → fullmatch appid_pattern s ≡ true → All (λ c. c < 128) s
appid-ascii s h =
    let (u, v, e, (c, single, pass), rest) = fullmatch_sound appid_pattern s h in
    rw (e, single) (ground arith, All-mono (λ c h. ground arith) v (star-All rest))

-- hexadecimal digits

pub hex_digit-injective : (a b : ℕ) → a < 16 → b < 16 → hex_digit a ≡ hex_digit b → a ≡ b
hex_digit-injective a b h k e = ground arith

pub hex-injective :
    (xs ys : List ℕ) → All (λ c. c < 128) xs → All (λ c. c < 128) ys → hex xs ≡ hex ys → xs ≡ ys
unfolding hex
hex-injective [] [] h k e = refl
hex-injective [] (y ∷ ys) h k e = cc
hex-injective (x ∷ xs) [] h k e = cc
hex-injective (x ∷ xs) (y ∷ ys) (p, h) (q, k) e =
    let high : x / 16 ≡ y / 16 =
      hex_digit-injective (x / 16) (y / 16) (omega arith) (omega arith) (cc) in
    let low : x % 16 ≡ y % 16 =
      hex_digit-injective (x % 16) (y % 16) (omega arith) (omega arith) (cc) in
    let same : x ≡ y = omega arith in cc (same, hex-injective xs ys h k (cc))

pub encode_utf8-ascii : (s : List ℕ) → All (λ c. c < 128) s → encode_utf8 s ≡ s
unfolding encode_utf8
encode_utf8-ascii [] h = refl
encode_utf8-ascii (c ∷ s) (p, h) = ground (arith, encode_utf8-ascii s h)

pub hex-lower : (s : List ℕ) → All (λ c. c < 128) s → All (λ c. is_lower_alnum c ≡ true) (hex s)
unfolding hex
hex-lower [] h = tt
hex-lower (c ∷ s) (p, h) = (ground arith, (ground arith, hex-lower s h))

pub length-hex : (s : List ℕ) → length (hex s) ≡ 2 * length s
unfolding hex
length-hex [] = refl
length-hex (c ∷ s) = omega (arith, length-hex s)

pub starts_with-append : (ps s : List ℕ) → starts_with (ps ++ s) ps ≡ true
starts_with-append [] s = refl
starts_with-append (p ∷ ps) s = rw (==-refl p) (starts_with-append ps s)

pub append-cancel : (ps : List ℕ) {s t : List ℕ} → ps ++ s ≡ ps ++ t → s ≡ t
append-cancel [] e = e
append-cancel (p ∷ ps) e = append-cancel ps (cc)

-- ===== src/Naming/Volumes.antt =====
-- The names of managed volumes keep the namespaces apart.
use docker_jenkins_orchestra.Prelude.{
  ℕ, suc, ◌≡◌, refl, sym, ap, ◌∙◌, ◌≢◌, ◌↔◌, true, List, [], ◌∷◌, ◌++◌, arith, ◌==◌, nat_eq,
  string_eq, option_eq, pair_eq, length, take, length-append, length-take, All,
}
use docker_jenkins_orchestra.Text.{codes}
use docker_jenkins_orchestra.Text.Regex.{fullmatch}
use docker_jenkins_orchestra.Text.Regex.Characters.{fullmatch-All}
use docker_jenkins_orchestra.Naming.{
  is_lower_alnum, named, identity_text, docker_component_pattern, resource_name_pattern,
  is_docker_repository_component, volume_identity_name, managed_volume_name,
}

-- the text up to the first quotation mark is determined
until_quote :
    (xs ys : List ℕ) {s t : List ℕ}
    → All (λ c. c ≢ b'"') xs
    → All (λ c. c ≢ b'"') ys
    → xs ++ (b'"' ∷ s) ≡ ys ++ (b'"' ∷ t)
    → (xs ≡ ys) × (s ≡ t)
until_quote [] [] h k e = (refl, cc)
until_quote [] (y ∷ ys) h (p, k) e = absurd (p (cc))
until_quote (x ∷ xs) [] (p, h) k e = absurd (p (cc))
until_quote (x ∷ xs) (y ∷ ys) {s} {t} (_, h) (_, k) e = joined (until_quote xs ys h k (cc))
  where
    joined : (xs ≡ ys) × (s ≡ t) → (x ∷ xs ≡ y ∷ ys) × (s ≡ t)
    joined (heads, tails) = (cc (heads, e), tails)

identity_text-injective :
    (a b c d : List ℕ)
    → All (λ c. c ≢ b'"') a
    → All (λ c. c ≢ b'"') b
    → All (λ c. c ≢ b'"') c
    → All (λ c. c ≢ b'"') d
    → identity_text a b ≡ identity_text c d
    → (a ≡ c) × (b ≡ d)
identity_text-injective a b c d ha hb hc hd e =
    let (first, rest) =
      until_quote a c {s = codes ",\"" ++ (b ++ codes "\"]")}
        {t = codes ",\"" ++ (d ++ codes "\"]")} ha hc (cc e) in
    let (second, _) = until_quote b d {s = codes "]"} {t = codes "]"} hb hd (cc rest) in
    (first, second)

-- equal lists with ends of one length have equal ends
same_end {ℓ} : {A : Type ℓ} (xs ys s t : List A) → length s ≡ length t → xs ++ s ≡ ys ++ t → s ≡ t
same_end [] [] s t h e = e
same_end [] (y ∷ ys) s t h e = absurd (omega (arith, ap length e, length-append ys t))
same_end (x ∷ xs) [] s t h e = absurd (omega (arith, ap length e, length-append xs s))
same_end (x ∷ xs) (y ∷ ys) s t h e = same_end xs ys s t h (cc)

lower_alnum-unquoted : (c : ℕ) → is_lower_alnum c ≡ true → c ≢ b'"'
lower_alnum-unquoted c h e = ground arith

char-unquoted : (k c : ℕ) → k ≢ b'"' → (c == k) ≡ true → c ≢ b'"'
char-unquoted k c ne h e = ground arith

component-unquoted : (s : List ℕ) → is_docker_repository_component s ≡ true → All (λ c. c ≢ b'"') s
unfolding is_docker_repository_component
component-unquoted s h =
    fullmatch-All (λ c. c ≢ b'"') docker_component_pattern s
      (
        (lower_alnum-unquoted, lower_alnum-unquoted),
        (
          (
            λ c k e. ground arith,
            (
              (
                λ c k. char-unquoted b'_' c (omega arith) k,
                λ c k. char-unquoted b'_' c (omega arith) k,
              ),
              (
                λ c k. char-unquoted b'-' c (omega arith) k,
                λ c k. char-unquoted b'-' c (omega arith) k,
              ),
            ),
          ),
          (lower_alnum-unquoted, lower_alnum-unquoted),
        ),
      )
      h

alias-unquoted : (s : List ℕ) → fullmatch resource_name_pattern s ≡ true → All (λ c. c ≢ b'"') s
alias-unquoted s h =
    fullmatch-All (λ c. c ≢ b'"') resource_name_pattern s
      (λ c k e. ground arith, λ c k e. ground arith) h

module _ (hexdigest : List ℕ → List ℕ) (full : (s : List ℕ) → length (hexdigest s) ≡ 64) where
  managed_volume_name-inversion :
      (namespace alias v : List ℕ)
      → managed_volume_name hexdigest namespace alias ≡ named v
      → (is_docker_repository_component namespace ≡ true)
        × (fullmatch resource_name_pattern alias ≡ true)
        × (v ≡ volume_identity_name hexdigest (codes "vol-v1") namespace alias)
  unfolding managed_volume_name
  managed_volume_name-inversion namespace alias v h = ground arith

  same_digest :
      (kind a b c d : List ℕ)
      → volume_identity_name hexdigest kind a b ≡ volume_identity_name hexdigest kind c d
      → take 32 (hexdigest (identity_text a b)) ≡ take 32 (hexdigest (identity_text c d))
  unfolding volume_identity_name
  same_digest kind a b c d e =
      let p = take 32 (hexdigest (identity_text a b)) in
      let q = take 32 (hexdigest (identity_text c d)) in
      let width : length p ≡ length q =
        length-take 32 _ (omega (arith, full (identity_text a b)))
        ∙ sym (length-take 32 _ (omega (arith, full (identity_text c d)))) in
      let ends : b'-' ∷ p ≡ b'-' ∷ q = same_end _ _ (b'-' ∷ p) (b'-' ∷ q) (ap suc width) e in
      cc ends

  -- With digests of 64 characters, two accepted pairs of a namespace and an alias get the same
  -- managed volume exactly when they are the same pair, as long as the first 32 characters of the
  -- digests of their two identity texts differ when the texts do.
  pub managed_volume_name-injective :
      (a b c d u v : List ℕ)
      → (take 32 (hexdigest (identity_text a b)) ≡ take 32 (hexdigest (identity_text c d))
          → identity_text a b ≡ identity_text c d)
      → managed_volume_name hexdigest a b ≡ named u
      → managed_volume_name hexdigest c d ≡ named v
      → (u ≡ v) ↔ ((a ≡ c) × (b ≡ d))
  managed_volume_name-injective a b c d u v no_collision h k =
      let (ca, cb, e) = managed_volume_name-inversion a b u h in
      let (cc', cd, f) = managed_volume_name-inversion c d v k in
      (
        λ same.
            identity_text-injective a b c d (component-unquoted a ca) (alias-unquoted b cb)
              (component-unquoted c cc') (alias-unquoted d cd)
              (no_collision (same_digest (codes "vol-v1") a b c d (sym e ∙ same ∙ f))),
        λ (p, q). cc (p, q, e, f),
      )

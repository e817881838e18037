-- ===== src/Naming/Namespace.antt =====
-- The external namespace of an application: no two applications share one, and it is always a
-- name that Docker accepts.
use mathlib.Core.List.{append-nil}
use docker_jenkins_orchestra.Prelude.{
  ℕ, ◌≤◌, ◌<◌, ◌≡◌, refl, sym, ap, ◌∙◌, ◌≢◌, inl, inr, Bool, true, false, List, [], ◌∷◌, ◌++◌,
  arith, nat_eq, string_eq, Bool-cases, option_eq, pair_eq, length, All,
}
use docker_jenkins_orchestra.Text.Regex.{plus, seq, cls, fullmatch}
use docker_jenkins_orchestra.Text.Regex.Language.{
  fullmatch_complete, done, more, Language, fullmatch_sound,
}
use docker_jenkins_orchestra.Naming.{
  docker_component_pattern, validate_appid, named, codes, separator, external_namespace,
  is_lower_alnum, appid_pattern, namespace_prefix, is_docker_repository_component, starts_with,
  encode_utf8, hex, encode_namespace,
}
use docker_jenkins_orchestra.Naming.Encoding.{
  All-star, appid-ascii, hex-injective, encode_utf8-ascii, hex-lower, length-hex,
  starts_with-append, append-cancel,
}

abbrev encoded : List ℕ → List ℕ
encoded raw = namespace_prefix ++ hex (encode_utf8 raw)

data Form (raw : List ℕ) : Type 0 where
  kept :
      starts_with raw namespace_prefix ≡ false
      → is_docker_repository_component raw ≡ true
      → encode_namespace raw ≡ raw
      → Form raw
  rewritten : encode_namespace raw ≡ encoded raw → Form raw

form : (raw : List ℕ) → Form raw
unfolding encode_namespace
form raw = elim (Bool-cases (starts_with raw namespace_prefix)) [
  | inl reserved ↦ rewritten (rw reserved)
  | inr free ↦ elim (Bool-cases (is_docker_repository_component raw)) [
    | inl plain ↦ kept free plain (rw (free, plain))
    | inr odd ↦ rewritten (rw (free, odd))
  ]
]

encoded-ne_kept : (a b : List ℕ) → starts_with b namespace_prefix ≡ false → encoded a ≢ b
encoded-ne_kept a b free e =
    let clash = starts_with-append namespace_prefix (hex (encode_utf8 a)) in
    true_ne_false (sym clash ∙ ap (λ t. starts_with t namespace_prefix) e ∙ free)
  where
    true_ne_false : true ≢ false
    true_ne_false h = cc

encoded-injective :
    (a b : List ℕ) → All (λ c. c < 128) a → All (λ c. c < 128) b → encoded a ≡ encoded b → a ≡ b
encoded-injective a b h k e =
    let digits = append-cancel namespace_prefix e in
    hex-injective a b h k
      (ap hex (sym (encode_utf8-ascii a h)) ∙ digits ∙ ap hex (encode_utf8-ascii b k))

encode_namespace-injective :
    (a b : List ℕ)
    → All (λ c. c < 128) a
    → All (λ c. c < 128) b
    → encode_namespace a ≡ encode_namespace b
    → a ≡ b
encode_namespace-injective a b h k e = by_form (form a) (form b)
  where
    by_form : Form a → Form b → a ≡ b
    by_form (kept _ _ p) (kept _ _ q) = sym p ∙ e ∙ q
    by_form (kept free _ p) (rewritten q) = absurd (encoded-ne_kept b a free (sym (sym p ∙ e ∙ q)))
    by_form (rewritten p) (kept free _ q) = absurd (encoded-ne_kept a b free (sym p ∙ e ∙ q))
    by_form (rewritten p) (rewritten q) = encoded-injective a b h k (sym p ∙ e ∙ q)

-- what a successful call says
external_namespace-inversion :
    (a n : List ℕ)
    → external_namespace a ≡ named n
    → (fullmatch appid_pattern a ≡ true)
      × (0 < length a)
      × (length a ≤ 64)
      × (n ≡ encode_namespace a)
unfolding external_namespace validate_appid
external_namespace-inversion a n h = ground arith

-- Two application identifiers that are both accepted and get the same external namespace are the
-- same identifier.
pub external_namespace-injective :
    (a b n : List ℕ) → external_namespace a ≡ named n → external_namespace b ≡ named n → a ≡ b
external_namespace-injective a b n h k =
    let (valid_a, _, _, e) = external_namespace-inversion a n h in
    let (valid_b, _, _, f) = external_namespace-inversion b n k in
    encode_namespace-injective a b (appid-ascii a valid_a) (appid-ascii b valid_b) (sym e ∙ f)

prefix_word : Language (plus (cls is_lower_alnum)) (codes "appid")
unfolding fullmatch
prefix_word = fullmatch_sound (plus (cls is_lower_alnum)) (codes "appid") refl

prefix_version : Language (seq separator (plus (cls is_lower_alnum))) (codes "-v1")
unfolding fullmatch
prefix_version = fullmatch_sound (seq separator (plus (cls is_lower_alnum))) (codes "-v1") refl

dash : Language separator (codes "-")
unfolding fullmatch
dash = fullmatch_sound separator (codes "-") refl

All-plus :
    {p : ℕ → Bool} (c : ℕ) (s : List ℕ)
    → All (λ c. p c ≡ true) (c ∷ s)
    → Language (plus (cls p)) (c ∷ s)
All-plus c s (pass, h) = (c ∷ [], s, refl, (c, refl, pass), All-star s h)

encoded-IsComponent :
    (c : ℕ) (s : List ℕ)
    → All (λ c. c < 128) (c ∷ s)
    → is_docker_repository_component (encoded (c ∷ s)) ≡ true
unfolding is_docker_repository_component hex
encoded-IsComponent c s h = rw (encode_utf8-ascii (c ∷ s) h) (
    fullmatch_complete docker_component_pattern (namespace_prefix ++ hex (c ∷ s)) (
      codes "appid",
      codes "-v1" ++ (codes "-" ++ hex (c ∷ s)),
      refl,
      prefix_word,
      more (codes "-v1") (codes "-" ++ hex (c ∷ s)) refl prefix_version (
          more (codes "-" ++ hex (c ∷ s)) [] (sym (append-nil _))
            (codes "-", hex (c ∷ s), refl, dash, All-plus _ _ (hex-lower (c ∷ s) h)) (done refl)),
    ))

-- The namespace of every accepted application identifier is a Docker repository component, of at
-- most 137 characters.
pub external_namespace-IsComponent :
    (a n : List ℕ)
    → external_namespace a ≡ named n
    → (is_docker_repository_component n ≡ true) × (length n ≤ 137)
external_namespace-IsComponent a n h =
    let (valid, positive, short, e) = external_namespace-inversion a n h in
    rw e (by_form a (appid-ascii a valid) positive short (form a))
  where
    by_form :
        (a : List ℕ)
        → All (λ c. c < 128) a
        → 0 < length a
        → length a ≤ 64
        → Form a
        → (is_docker_repository_component (encode_namespace a) ≡ true)
          × (length (encode_namespace a) ≤ 137)
    by_form a ascii positive short (kept _ plain p) = rw p (plain, omega arith)
    by_form [] ascii positive short (rewritten p) = absurd (omega arith)
    by_form (c ∷ s) ascii positive short (rewritten p) = rw p (
      encoded-IsComponent c s ascii,
      rw (encode_utf8-ascii (c ∷ s) ascii) (omega (arith, length-hex (c ∷ s))),
    )

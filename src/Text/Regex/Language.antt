-- ===== src/Text/Regex/Language.antt =====
-- What a pattern means: the texts of its language. `fullmatch` decides it.
use docker_jenkins_orchestra.Prelude.{
  ℕ, ◌≡◌, refl, sym, ap, ◌∙◌, ◌↔◌, ◌⊎◌, inl, inr, Bool, true, false, List, [], ◌∷◌, ◌++◌, arith,
  nat_eq, string_eq, Bool-cases, option_eq, pair_eq,
}
use docker_jenkins_orchestra.Text.Regex.{
  Regex, fail, eps, cls, seq, alt, star, nullable, seq', alt', when, deriv, fullmatch,
}

pub data Repeats (P : List ℕ → Type 0) : List ℕ → Type 0 where
  done : {s : List ℕ} → s ≡ [] → Repeats P s
  more : {s : List ℕ} (u v : List ℕ) → s ≡ u ++ v → P u → Repeats P v → Repeats P s

abbrev pub Language : Regex → List ℕ → Type 0
Language fail s = ⊥
Language eps s = s ≡ []
Language (cls p) s = (c : ℕ) × (s ≡ c ∷ []) × (p c ≡ true)
Language (seq r q) s = (u : List ℕ) × (v : List ℕ) × (s ≡ u ++ v) × Language r u × Language q v
Language (alt r q) s = Language r s ⊎ Language q s
Language (star r) s = Repeats (Language r) s

seq'-sound : (r q : Regex) (s : List ℕ) → Language (seq' r q) s → Language (seq r q) s
unfolding seq'
seq'-sound fail q s h = absurd h
seq'-sound eps q s h = ([], s, refl, refl, h)
seq'-sound (cls p) q s h = h
seq'-sound _ q s h = h

seq'-complete : (r q : Regex) (s : List ℕ) → Language (seq r q) s → Language (seq' r q) s
unfolding seq'
seq'-complete fail q s (u, v, e, a, b) = a
seq'-complete eps q s (u, v, e, a, b) = let same : s ≡ v = rw (e, a) in rw same b
seq'-complete (cls p) q s h = h
seq'-complete _ q s h = h

alt'-sound : (r q : Regex) (s : List ℕ) → Language (alt' r q) s → Language (alt r q) s
unfolding alt'
alt'-sound fail q s h = inr h
alt'-sound eps fail s h = inl h
alt'-sound (cls _) fail s h = inl h
alt'-sound (seq _ _) fail s h = inl h
alt'-sound (alt _ _) fail s h = inl h
alt'-sound (star _) fail s h = inl h
alt'-sound _ _ s h = h

alt'-complete : (r q : Regex) (s : List ℕ) → Language (alt r q) s → Language (alt' r q) s
unfolding alt'
alt'-complete fail q s (inl a) = absurd a
alt'-complete fail q s (inr b) = b
alt'-complete eps fail s (inl a) = a
alt'-complete eps fail s (inr b) = absurd b
alt'-complete (cls p) fail s (inl a) = a
alt'-complete (cls p) fail s (inr b) = absurd b
alt'-complete (seq r q) fail s (inl a) = a
alt'-complete (seq r q) fail s (inr b) = absurd b
alt'-complete (alt r q) fail s (inl a) = a
alt'-complete (alt r q) fail s (inr b) = absurd b
alt'-complete (star r) fail s (inl a) = a
alt'-complete (star r) fail s (inr b) = absurd b
alt'-complete _ _ s h = h

nullable_sound : (r : Regex) → nullable r ≡ true → Language r []
unfolding nullable
nullable_sound fail h = cc
nullable_sound eps h = refl
nullable_sound (cls p) h = cc
nullable_sound (seq r q) h =
    ([], [], refl, nullable_sound r (ground arith), nullable_sound q (ground arith))
nullable_sound (alt r q) h = elim (Bool-cases (nullable r)) [
  | inl a ↦ inl (nullable_sound r a)
  | inr a ↦ inr (nullable_sound q (ground arith))
]
nullable_sound (star r) h = done refl

append-nil_parts : (u v : List ℕ) → [] ≡ u ++ v → (u ≡ []) × (v ≡ [])
append-nil_parts [] v e = (refl, sym e)
append-nil_parts (x ∷ u) v e = cc

nullable_complete : (r : Regex) → Language r [] → nullable r ≡ true
unfolding nullable
nullable_complete fail h = absurd h
nullable_complete eps h = refl
nullable_complete (cls p) (c, e, h) = cc
nullable_complete (seq r q) (u, v, e, a, b) =
    let (eu, ev) = append-nil_parts u v e in
    rw (nullable_complete r (rw eu at a), nullable_complete q (rw ev at b))
nullable_complete (alt r q) (inl a) = rw (nullable_complete r a)
nullable_complete (alt r q) (inr b) = ground (arith, nullable_complete q b)
nullable_complete (star r) h = refl

when_sound : (b : Bool) (s : List ℕ) → Language (when b) s → (b ≡ true) × (s ≡ [])
unfolding when
when_sound true s h = (refl, h)
when_sound false s h = absurd h

when_complete : (b : Bool) (s : List ℕ) → b ≡ true → s ≡ [] → Language (when b) s
unfolding when
when_complete true s h e = e
when_complete false s h e = cc

deriv_sound : (c : ℕ) (r : Regex) (s : List ℕ) → Language (deriv c r) s → Language r (c ∷ s)
unfolding deriv
deriv_sound c fail s h = absurd h
deriv_sound c eps s h = absurd h
deriv_sound c (cls p) s h =
    let (pass, empty) = when_sound (p c) s h in (c, ap (λ t. c ∷ t) empty, pass)
deriv_sound c (seq r q) s h = elim (alt'-sound (seq' (deriv c r) q) _ s h) [
  | inl k ↦
      let (u, v, e, a, b) = seq'-sound (deriv c r) q s k in
      (c ∷ u, v, ap (λ t. c ∷ t) e, deriv_sound c r u a, b)
  | inr k ↦
      let (u, v, e, a, b) = seq'-sound (when (nullable r)) (deriv c q) s k in
      let (skips, empty) = when_sound (nullable r) u a in
      let same : v ≡ s = sym (e ∙ ap (λ t. t ++ v) empty) in
      ([], c ∷ s, refl, nullable_sound r skips, deriv_sound c q s (rw same at b))
]
deriv_sound c (alt r q) s h = elim (alt'-sound (deriv c r) (deriv c q) s h) [
  | inl a ↦ inl (deriv_sound c r s a)
  | inr b ↦ inr (deriv_sound c q s b)
]
deriv_sound c (star r) s h =
    let (u, v, e, a, b) = seq'-sound (deriv c r) (star r) s h in
    more (c ∷ u) v (ap (λ t. c ∷ t) e) (deriv_sound c r u a) b

-- the first round of a repetition that takes a character
first_round :
    {P : List ℕ → Type 0} (c : ℕ) (s : List ℕ) {t : List ℕ}
    → Repeats P t
    → t ≡ c ∷ s
    → (u : List ℕ) × (v : List ℕ) × (s ≡ u ++ v) × P (c ∷ u) × Repeats P v
first_round c s (done e) h = cc
first_round c s (more [] v e a rest) h = first_round c s rest (sym e ∙ h)
first_round {P} c s (more (x ∷ u) v e a rest) h =
    let same : x ≡ c = cc (e, h) in (u, v, tail_path (sym h ∙ e), rw same at a, rest)
  where
    tail_path : c ∷ s ≡ x ∷ (u ++ v) → s ≡ u ++ v
    tail_path k = cc

deriv_complete : (c : ℕ) (r : Regex) (s : List ℕ) → Language r (c ∷ s) → Language (deriv c r) s
unfolding deriv
deriv_complete c fail s h = absurd h
deriv_complete c eps s h = cc
deriv_complete c (cls p) s (d, e, h) =
    let same : c ≡ d = cc in when_complete (p c) s (rw same h) (cc)
deriv_complete c (seq r q) s ([], v, e, a, b) = alt'-complete (seq' (deriv c r) q) _ s (
    inr (
      seq'-complete (when (nullable r)) (deriv c q) s (
        [],
        s,
        refl,
        when_complete (nullable r) [] (nullable_complete r a) refl,
        deriv_complete c q s (rw e b),
      )))
deriv_complete c (seq r q) s (x ∷ u, v, e, a, b) =
    let same : x ≡ c = cc in
    alt'-complete (seq' (deriv c r) q) _ s
      (inl (seq'-complete (deriv c r) q s (u, v, cc, deriv_complete c r u (rw same at a), b)))
deriv_complete c (alt r q) s (inl a) =
    alt'-complete (deriv c r) (deriv c q) s (inl (deriv_complete c r s a))
deriv_complete c (alt r q) s (inr b) =
    alt'-complete (deriv c r) (deriv c q) s (inr (deriv_complete c q s b))
deriv_complete c (star r) s h =
    let (u, v, e, a, b) = first_round c s h refl in
    seq'-complete (deriv c r) (star r) s (u, v, e, deriv_complete c r u a, b)

pub fullmatch_sound : (r : Regex) (s : List ℕ) → fullmatch r s ≡ true → Language r s
unfolding fullmatch
fullmatch_sound r [] h = nullable_sound r h
fullmatch_sound r (c ∷ s) h = deriv_sound c r s (fullmatch_sound (deriv c r) s h)

pub fullmatch_complete : (r : Regex) (s : List ℕ) → Language r s → fullmatch r s ≡ true
unfolding fullmatch
fullmatch_complete r [] h = nullable_complete r h
fullmatch_complete r (c ∷ s) h = fullmatch_complete (deriv c r) s (deriv_complete c r s h)

-- The matcher accepts exactly the texts of the pattern's language.
pub fullmatch_iff : (r : Regex) (s : List ℕ) → (fullmatch r s ≡ true) ↔ Language r s
fullmatch_iff r s = (fullmatch_sound r s, fullmatch_complete r s)

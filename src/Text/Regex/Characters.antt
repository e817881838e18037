-- ===== src/Text/Regex/Characters.antt =====
-- A property of every character that the classes of a pattern admit holds of every character of a
-- text that it matches.
use docker_jenkins_orchestra.Prelude.{
  ℕ, ◌≡◌, inl, inr, true, List, nat_eq, string_eq, option_eq, pair_eq, All, All-append,
}
use docker_jenkins_orchestra.Text.Regex.{Regex, fail, eps, cls, seq, alt, star, fullmatch}
use docker_jenkins_orchestra.Text.Regex.Language.{Repeats, done, more, Language, fullmatch_sound}

module _ (P : ℕ → Type 0) where
  abbrev pub Admits : Regex → Type 0
  Admits fail = Unit
  Admits eps = Unit
  Admits (cls p) = (c : ℕ) → p c ≡ true → P c
  Admits (seq r q) = Admits r × Admits q
  Admits (alt r q) = Admits r × Admits q
  Admits (star r) = Admits r

  Repeats-All :
      {Q : List ℕ → Type 0} {s : List ℕ} → ((u : List ℕ) → Q u → All P u) → Repeats Q s → All P s
  Repeats-All f (done e) = rw e tt
  Repeats-All f (more u v e a rest) = rw e (All-append P u v (f u a) (Repeats-All f rest))

  Language-All : (r : Regex) (s : List ℕ) → Admits r → Language r s → All P s
  Language-All fail s a h = absurd h
  Language-All eps s a h = rw h tt
  Language-All (cls p) s a (c, e, pass) = rw e (a c pass, tt)
  Language-All (seq r q) s (a, b) (u, v, e, h, k) =
      rw e (All-append P u v (Language-All r u a h) (Language-All q v b k))
  Language-All (alt r q) s (a, b) (inl h) = Language-All r s a h
  Language-All (alt r q) s (a, b) (inr h) = Language-All q s b h
  Language-All (star r) s a h = Repeats-All (λ u k. Language-All r u a k) h

  pub fullmatch-All : (r : Regex) (s : List ℕ) → Admits r → fullmatch r s ≡ true → All P s
  fullmatch-All r s a h = Language-All r s a (fullmatch_sound r s h)

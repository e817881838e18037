-- ===== src/Repository/RouteChecks/Unique.antt =====
-- The identities of the stored route checks stay apart.
use docker_jenkins_orchestra.Prelude.{
  String, ◌≡◌, sym, ap, ◌∙◌, ◌≢◌, ◌⊎◌, inl, inr, none, some, [], ◌∷◌, eq_iff, ◌==◌, nat_eq,
  string_eq, Bool-cases, option_eq, pair_eq,
}
use docker_jenkins_orchestra.Prelude.Dict.{Dict, lookup, insert}
use docker_jenkins_orchestra.Models.RouteCheck.{RouteCheckResult}
use docker_jenkins_orchestra.Repository.RouteChecks.{RouteKey, route_key, without_key}

abbrev Checks : Type 0
Checks = Dict String RouteCheckResult

-- a check that is stored under a key
abbrev pub Entry : String → RouteCheckResult → Dict String RouteCheckResult → Type 0
Entry k c [] = ⊥
Entry k c ((j, b) ∷ checks) = ((j ≡ k) × (b ≡ c)) ⊎ Entry k c checks

-- Every check stands under its own identifier, and no two have one route key or one number.
pub record Apart (checks : Dict String RouteCheckResult) : Type 0 where
  pub own : (k : String) (c : RouteCheckResult) → Entry k c checks → c.check_id ≡ k
  pub one_key :
      (j k : String) (a b : RouteCheckResult)
      → Entry j a checks
      → Entry k b checks
      → route_key a ≡ route_key b
      → j ≡ k
  pub one_id :
      (j k : String) (a b : RouteCheckResult)
      → Entry j a checks
      → Entry k b checks
      → a.id ≡ b.id
      → j ≡ k

pub lookup-Entry :
    (k : String) (c : RouteCheckResult) (checks : Checks)
    → lookup k checks ≡ some c
    → Entry k c checks
unfolding lookup
lookup-Entry k c [] h = cc h
lookup-Entry k c ((j, b) ∷ checks) h = elim (Bool-cases (j == k)) [
  | inl same ↦ let held : some b ≡ some c = rw same at h in inl ((eq_iff j k).0 same, cc held)
  | inr other ↦ inr (lookup-Entry k c checks (rw other at h))
]

pub Entry-lookup :
    (k : String) (c : RouteCheckResult) (checks : Checks)
    → Entry k c checks
    → lookup k checks ≢ none
unfolding lookup
Entry-lookup k c [] h e = h
Entry-lookup k c ((j, b) ∷ checks) h e = elim (Bool-cases (j == k)) [
  | inl same ↦ let held : some b ≡ none = rw same at e in cc held
  | inr other ↦ elim h [
    | inl (here, _) ↦ cc ((eq_iff j k).1 here, other)
    | inr later ↦ Entry-lookup k c checks later (rw other at e)
  ]
]

pub insert-Entry :
    (k j : String) (c b : RouteCheckResult) (checks : Checks)
    → Entry j b (insert k c checks)
    → ((k ≡ j) × (c ≡ b)) ⊎ Entry j b checks
unfolding insert
insert-Entry k j c b [] h = elim h [ inl new ↦ inl new | inr none_left ↦ absurd none_left ]
insert-Entry k j c b ((i, d) ∷ checks) h = elim (Bool-cases (i == k)) [
  | inl same ↦
      let e : i ≡ k = (eq_iff i k).0 same in
      let held : Entry j b ((i, c) ∷ checks) = rw same at h in
      elim held [ inl (at, new) ↦ inl (sym e ∙ at, new) | inr old ↦ inr (inr old) ]
  | inr other ↦
      let held : Entry j b ((i, d) ∷ insert k c checks) = rw other at h in
      elim held [
        | inl old ↦ inr (inl old)
        | inr rest ↦ elim (insert-Entry k j c b checks rest) [
          | inl new ↦ inl new
          | inr old ↦ inr (inr old)
        ]
      ]
]

without_key-Entry :
    (key : RouteKey) (k : String) (c : RouteCheckResult) (checks : Checks)
    → Entry k c (without_key key checks)
    → Entry k c checks
unfolding without_key
without_key-Entry key k c [] h = h
without_key-Entry key k c ((j, b) ∷ checks) h = elim (Bool-cases (route_key b == key)) [
  | inl gone ↦ inr (without_key-Entry key k c checks (rw gone at h))
  | inr stays ↦
      let held : Entry k c ((j, b) ∷ without_key key checks) = rw stays at h in
      elim held [ inl here ↦ inl here | inr rest ↦ inr (without_key-Entry key k c checks rest) ]
]

pub Apart-without_key :
    (key : RouteKey) (checks : Checks) → Apart checks → Apart (without_key key checks)
Apart-without_key key checks apart = record {
  own = λ k c h. apart.own k c (without_key-Entry key k c checks h);
  one_key = λ j k a b h l.
      apart.one_key j k a b (without_key-Entry key j a checks h)
        (without_key-Entry key k b checks l);
  one_id = λ j k a b h l.
      apart.one_id j k a b (without_key-Entry key j a checks h)
        (without_key-Entry key k b checks l);
}

-- A check may be stored under its identifier if all that share its key or number stand there.
pub Apart-insert :
    (c : RouteCheckResult) (checks : Checks)
    → Apart checks
    → ((k : String) (b : RouteCheckResult)
        → Entry k b checks
        → route_key b ≡ route_key c
        → k ≡ c.check_id)
    → ((k : String) (b : RouteCheckResult) → Entry k b checks → b.id ≡ c.id → k ≡ c.check_id)
    → Apart (insert c.check_id c checks)
Apart-insert c checks apart keys ids = record {
  own = λ k b h. elim (insert-Entry c.check_id k c b checks h) [
    | inl (at, new) ↦ sym (ap (λ (x : RouteCheckResult). x.check_id) new) ∙ at
    | inr old ↦ apart.own k b old
  ];
  one_key = λ j k a b h l e. joined (λ x. route_key x) keys apart.one_key j k a b h l e;
  one_id = λ j k a b h l e. joined (λ x. x.id) ids apart.one_id j k a b h l e;
}
  where
    joined :
        {X : Type 0} (f : RouteCheckResult → X)
        → ((k : String) (b : RouteCheckResult) → Entry k b checks → f b ≡ f c → k ≡ c.check_id)
        → ((j k : String) (a b : RouteCheckResult)
            → Entry j a checks
            → Entry k b checks
            → f a ≡ f b
            → j ≡ k)
        → (j k : String) (a b : RouteCheckResult) → Entry j a (insert c.check_id c checks)
        → Entry k b (insert c.check_id c checks)
        → f a ≡ f b
        → j ≡ k
    joined f only one j k a b h l e = elim (insert-Entry c.check_id j c a checks h) [
      | inl (at, new) ↦ elim (insert-Entry c.check_id k c b checks l) [
        | inl (at', new') ↦ sym at ∙ at'
        | inr old' ↦ sym at ∙ sym (only k b old' (sym e ∙ sym (ap f new)))
      ]
      | inr old ↦ elim (insert-Entry c.check_id k c b checks l) [
        | inl (at', new') ↦ only j a old (e ∙ sym (ap f new')) ∙ at'
        | inr old' ↦ one j k a b old old' e
      ]
    ]

-- ===== src/Repository/RouteChecks/Calls.antt =====
-- Every call on the route checks keeps their identities apart.
use docker_jenkins_orchestra.Prelude.{
  String, ◌≡◌, refl, sym, ap, ◌∙◌, ◌≢◌, ◌⊎◌, inl, inr, true, false, not, Option, none, some, [],
  ◌∷◌, arith, eq_iff, nat_beq_iff, ◌==◌, nat_eq, string_eq, Bool-cases, Option-cases, option_eq,
  pair_eq,
}
use docker_jenkins_orchestra.Prelude.Dict.{Dict, lookup, insert}
use docker_jenkins_orchestra.Models.RouteCheck.{RouteCheckResult}
use docker_jenkins_orchestra.Repository.RouteChecks.{
  RouteKey, route_key, same_identity, first_match, id_taken, changes_identity, identity_error,
  store_valid, ensure_route_check, save_route_check, is_other, find_route_check,
}
use docker_jenkins_orchestra.Repository.RouteChecks.Unique.{
  Entry, Apart, lookup-Entry, Entry-lookup, Apart-insert,
}
use docker_jenkins_orchestra.World.{World, Error, pure, ◌>>=◌}

abbrev Checks : Type 0
Checks = Dict String RouteCheckResult

first_match-none :
    (key : RouteKey) (checks : Checks) (k : String) (c : RouteCheckResult)
    → first_match key checks ≡ none
    → Entry k c checks
    → route_key c ≢ key
first_match-none key [] k c h l e = l
first_match-none key ((j, b) ∷ checks) k c h l e = elim (Bool-cases (route_key b == key)) [
  | inl hit ↦ let found : some b ≡ none = rw hit at h in cc found
  | inr miss ↦ elim l [
    | inl (_, here) ↦
        cc ((pair_eq.beq_iff (route_key b) key).1 (ap (λ x. route_key x) here ∙ e), miss)
    | inr later ↦ first_match-none key checks k c (rw miss at h) later e
  ]
]

first_match-Entry :
    (key : RouteKey) (checks : Checks) (c : RouteCheckResult)
    → first_match key checks ≡ some c
    → (k : String) × Entry k c checks
first_match-Entry key [] c h = cc h
first_match-Entry key ((j, b) ∷ checks) c h = elim (Bool-cases (route_key b == key)) [
  | inl hit ↦ let found : some b ≡ some c = rw hit at h in (j, inl (refl, cc found))
  | inr miss ↦ let (k, l) = first_match-Entry key checks c (rw miss at h) in (k, inr l)
]

id_taken-false :
    (result : RouteCheckResult) (checks : Checks) (k : String) (c : RouteCheckResult)
    → id_taken result checks ≡ false
    → Entry k c checks
    → c.id ≡ result.id
    → c.check_id ≡ result.check_id
id_taken-false result [] k c h l e = absurd l
id_taken-false result ((j, b) ∷ checks) k c h l e = elim l [
  | inl (_, here) ↦
      let number : b.id ≡ result.id = ap (λ (x : RouteCheckResult). x.id) here ∙ e in
      let name : b.check_id ≡ result.check_id =
        ground (arith, nat_beq_iff b.id result.id, eq_iff b.check_id result.check_id) in
      sym (ap (λ (x : RouteCheckResult). x.check_id) here) ∙ name
  | inr later ↦ id_taken-false result checks k c (ground arith) later e
]

same_identity-key : (a b : RouteCheckResult) → same_identity a b ≡ true → route_key a ≡ route_key b
same_identity-key a b h = (pair_eq.beq_iff (route_key a) (route_key b)).0 (ground arith)

-- The check that is stored has no rival with its key: none at all, or itself.
abbrev Unrivalled : RouteCheckResult → Checks → Type 0
Unrivalled c checks =
    (first_match (route_key c) checks ≡ none)
    ⊎ ((b : RouteCheckResult) × (lookup c.check_id checks ≡ some b))

store-Apart :
    (c : RouteCheckResult) (checks : Checks)
    → Apart checks
    → Unrivalled c checks
    → changes_identity c (lookup c.check_id checks) ≡ false
    → id_taken c checks ≡ false
    → Apart (insert c.check_id c checks)
store-Apart c checks apart free keeps untaken =
    Apart-insert c checks apart
      (λ k b l e. elim free [
        | inl nobody ↦ absurd (first_match-none (route_key c) checks k b nobody l e)
        | inr (current, held) ↦
            let known : same_identity current c ≡ true = same_current current (rw held at keeps) in
            apart.one_key k c.check_id b current l (lookup-Entry c.check_id current checks held)
              (e ∙ sym (same_identity-key current c known))
      ])
      (λ k b l e. sym (apart.own k b l) ∙ id_taken-false c checks k b untaken l e)
  where
    same_current :
        (current : RouteCheckResult)
        → not (same_identity current c) ≡ false
        → same_identity current c ≡ true
    same_current current h = ground arith

-- a store that is valid, or an error, and then an answer
store_then :
    {B : Type 0} (c : RouteCheckResult) (o : Option Error) (answer : B) (w : World)
    → Apart w.repository.route_checks
    → (o ≡ none → Apart (insert c.check_id c w.repository.route_checks))
    → Apart ((store_valid c o >>= λ u. pure answer) w).1.repository.route_checks
unfolding ◌>>=◌
store_then c none answer w apart valid = valid refl
store_then c (some e) answer w apart valid = apart

no_error :
    (c : RouteCheckResult) (checks : Checks)
    → identity_error c checks ≡ none
    → (changes_identity c (lookup c.check_id checks) ≡ false) × (id_taken c checks ≡ false)
no_error c checks h = elim (Bool-cases (changes_identity c (lookup c.check_id checks))) [
  | inl changes ↦
      let bad : some (Error.value_error "Route check identity is immutable") ≡ none =
        rw changes at h in
      cc bad
  | inr keeps ↦ elim (Bool-cases (id_taken c checks)) [
    | inl taken ↦
        let bad : some (Error.repository_error "Duplicate route check id") ≡ none =
          rw (keeps, taken) at h in
        cc bad
    | inr untaken ↦ (keeps, untaken)
  ]
]

pub ensure-Apart :
    (c : RouteCheckResult) (w : World)
    → Apart w.repository.route_checks
    → Apart (ensure_route_check c w).1.repository.route_checks
unfolding ensure_route_check find_route_check ◌>>=◌
ensure-Apart c w apart =
    let checks = w.repository.route_checks in
    elim (Option-cases (first_match (route_key c) checks)) [
      | inr (existing, hit) ↦ rw hit apart
      | inl nobody ↦ rw nobody (
          store_then c (identity_error c checks) (c, true) w apart
            (λ fine.
              let (keeps, untaken) = no_error c checks fine in
              store-Apart c checks apart (inl nobody) keeps untaken))
    ]

-- a check that is found under its own identifier, or none
is_other-Unrivalled :
    (c : RouteCheckResult) (checks : Checks)
    → Apart checks
    → is_other c (first_match (route_key c) checks) ≡ false
    → Unrivalled c checks
is_other-Unrivalled c checks apart mine = elim (Option-cases (first_match (route_key c) checks)) [
  | inl nobody ↦ inl nobody
  | inr (existing, hit) ↦
      let (k, l) = first_match-Entry (route_key c) checks existing hit in
      let named : not (existing.check_id == c.check_id) ≡ false = rw hit at mine in
      let same : existing.check_id ≡ c.check_id =
        ground (arith, eq_iff existing.check_id c.check_id) in
      let at : k ≡ c.check_id = sym (apart.own k existing l) ∙ same in
      elim (Option-cases (lookup c.check_id checks)) [
        | inl absent ↦ absurd (Entry-lookup c.check_id existing checks (rw at at l) absent)
        | inr held ↦ inr held
      ]
]

pub save-Apart :
    (c : RouteCheckResult) (w : World)
    → Apart w.repository.route_checks
    → Apart (save_route_check c w).1.repository.route_checks
unfolding save_route_check find_route_check ◌>>=◌
save-Apart c w apart =
    let checks = w.repository.route_checks in
    elim (Bool-cases (changes_identity c (lookup c.check_id checks))) [
      | inl changes ↦ rw changes apart
      | inr keeps ↦ elim (Bool-cases (is_other c (first_match (route_key c) checks))) [
        | inl other ↦ rw (keeps, other) apart
        | inr mine ↦
            rw (keeps, mine)
              (store_then c _ c w apart (λ fine.
                store-Apart c checks apart (is_other-Unrivalled c checks apart mine) keeps
                  (no_error c checks (rw keeps fine)).1))
      ]
    ]

-- ===== src/Examples/Orders.antt =====
-- The order of three services.
use docker_jenkins_orchestra.Prelude.{
  ℕ, ◌≤◌, ◌<◌, String, ◌≡◌, refl, sym, ap, ◌∙◌, ◌≢◌, ◌⊎◌, inl, inr, true, false, List, [], ◌∷◌,
  arith, eq_iff, if◌then◌else◌, ◌==◌, nat_eq, string_eq, Bool-cases, option_eq, pair_eq,
}
use docker_jenkins_orchestra.Prelude.Dict.{Dict, lookup}
use docker_jenkins_orchestra.Models.Value.{Value, str, sequence, mapping, nil, cons, end, entry}
use docker_jenkins_orchestra.Deployment.Order.{
  done, out_of_fuel, deployment_order, dependencies, dependency_names, rounds, ready, advance, sort,
  without, Graph, member,
}
use docker_jenkins_orchestra.Deployment.Order.Members.{count}
use docker_jenkins_orchestra.Deployment.Order.Sound.{DependencyFirst}
use docker_jenkins_orchestra.Deployment.Order.Documents.{
  waits_for, service_names, deployment_order_sound, deployment_order_complete,
  deployment_order-fuelled,
}

abbrev needs : String → Value
needs name = mapping (entry "depends_on" (sequence (cons (str name) nil)) end)

abbrev services : Dict String Value
services = ("web", needs "api") ∷ ("api", needs "db") ∷ ("db", mapping end) ∷ []

abbrev order : List String
order = "db" ∷ "api" ∷ "web" ∷ []

ordered : deployment_order services ≡ done order
unfolding deployment_order dependencies dependency_names rounds ready advance sort without lookup
ordered = refl

excludes : (a b d : String) → (a == b) ≡ false → (a == d) ≡ true → (b == d) ≡ false
excludes a b d ne e = elim (Bool-cases (b == d)) [
  | inl same ↦
      let equal : a ≡ b = cc ((eq_iff a d).0 e, (eq_iff b d).0 same) in
      cc ((eq_iff a b).1 equal, ne)
  | inr other ↦ other
]

distinct : (d : String) → count d (service_names services) ≤ 1
distinct d =
    ground
      (arith, excludes "web" "api" d refl, excludes "web" "db" d refl, excludes "api" "db" d refl)

deployment_order_sound_example :
    DependencyFirst (waits_for services) [] order
    × ((d : String) → count d order ≡ count d (service_names services))
deployment_order_sound_example = deployment_order_sound services distinct order ordered

abbrev graph : Graph
graph = ("web", "api" ∷ []) ∷ ("api", "db" ∷ []) ∷ ("db", []) ∷ []

read : dependencies services ≡ done graph
unfolding dependencies dependency_names lookup
read = refl

abbrev rank : String → ℕ
rank s = if s == "db" then 0 else if s == "api" then 1 else 2

idle :
    (n : String)
    → ("web" == n) ≡ false
    → ("api" == n) ≡ false
    → ("db" == n) ≡ false
    → waits_for services n ≡ []
unfolding lookup
idle n no_web no_api no_db = rw (no_web, no_api, no_db)

waits :
    (n : String)
    → ((n ≡ "web") × (waits_for services n ≡ "api" ∷ []))
      ⊎ ((n ≡ "api") × (waits_for services n ≡ "db" ∷ []))
      ⊎ (waits_for services n ≡ [])
unfolding lookup dependency_names
waits n = elim (Bool-cases ("web" == n)) [
  | inl web ↦ let e : "web" ≡ n = (eq_iff "web" n).0 web in rw (sym e) (inl (refl, refl))
  | inr no_web ↦ elim (Bool-cases ("api" == n)) [
    | inl api ↦ let e : "api" ≡ n = (eq_iff "api" n).0 api in rw (sym e) (inr (inl (refl, refl)))
    | inr no_api ↦ elim (Bool-cases ("db" == n)) [
      | inl db ↦ let e : "db" ≡ n = (eq_iff "db" n).0 db in rw (sym e) (inr (inr refl))
      | inr no_db ↦ inr (inr (idle n no_web no_api no_db))
    ]
  ]
]

only : (d x : String) → member d (x ∷ []) ≡ true → x ≡ d
only d x m = (eq_iff x d).0 (ground arith)

ranked :
    (n d : String)
    → member n (service_names services) ≡ true
    → member d (waits_for services n) ≡ true
    → (member d (service_names services) ≡ true) × (rank d < rank n)
ranked n d m k = elim (waits n) [
  | inl (e, ws) ↦
      let same : "api" ≡ d = only d "api" (sym (ap (member d) ws) ∙ k) in
      rw (e, sym same) (refl, omega arith)
  | inr (inl (e, ws)) ↦
      let same : "db" ≡ d = only d "db" (sym (ap (member d) ws) ∙ k) in
      rw (e, sym same) (refl, omega arith)
  | inr (inr ws) ↦ let none_waits : member d [] ≡ true = sym (ap (member d) ws) ∙ k in cc none_waits
]

deployment_order_complete_example : (found : List String) × (deployment_order services ≡ done found)
deployment_order_complete_example =
    deployment_order_complete services distinct graph rank read ranked

deployment_order-fuelled_example : deployment_order services ≢ out_of_fuel
deployment_order-fuelled_example = deployment_order-fuelled services

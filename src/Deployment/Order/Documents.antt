-- ===== src/Deployment/Order/Documents.antt =====
-- The order of the services of a Compose document.
use docker_jenkins_orchestra.Prelude.{
  ℕ, ◌≤◌, ◌<◌, String, ◌≡◌, refl, sym, ap, ◌∙◌, ◌≢◌, inl, inr, true, false, Option, none, some,
  List, [], ◌∷◌, arith, ◌==◌, nat_eq, string_eq, Bool-cases, ==-refl, option_eq, pair_eq, length,
}
use docker_jenkins_orchestra.Prelude.Dict.{lookup_first, lookup_later, Dict, lookup}
use docker_jenkins_orchestra.Models.Value.{
  null, sequence, mapping, item_list, entry_list, Value, get_key,
}
use docker_jenkins_orchestra.Deployment.Order.{
  or_invalid, non_empty_texts, keys_of, keys_of, mapping, item_list, non_empty_texts, sequence,
  or_invalid, Graph, member, done, failed, out_of_fuel, Outcome, rounds, add_entry,
  dependency_names, dependencies, order_graph, deployment_order,
}
use docker_jenkins_orchestra.Deployment.Order.Members.{count, names, member_iff}
use docker_jenkins_orchestra.Deployment.Order.Sound.{
  DependencyFirst, Unique, Waiting, rounds-DependencyFirst, rounds-count,
}
use docker_jenkins_orchestra.Deployment.Order.Complete.{Ranked, rounds_total, rounds-fuelled}

abbrev names_or_nil : Outcome (List String) → List String
names_or_nil (done items) = items
names_or_nil other = []

abbrev waits_in : String → Option Value → List String
waits_in name none = []
waits_in name (some definition) =
    names_or_nil (dependency_names name (get_key "depends_on" definition))

-- The names under `depends_on` of a service.
abbrev pub waits_for : Dict String Value → String → List String
waits_for services name = waits_in name (lookup name services)

abbrev pub service_names : Dict String Value → List String
service_names [] = []
service_names ((name, definition) ∷ rest) = name ∷ service_names rest

-- a document that was read, entry by entry
add_entry-done :
    (name : String) (o : Outcome (List String)) (rest : Outcome Graph) (g : Graph)
    → add_entry name o rest ≡ done g
    → (items : List String) × (g' : Graph) × (o ≡ done items)
      × (rest ≡ done g')
      × (g ≡ (name, items) ∷ g')
add_entry-done name (done items) (done g') g e = (items, g', refl, refl, cc e)
add_entry-done name (done items) (failed m) g e = cc
add_entry-done name (done items) out_of_fuel g e = cc
add_entry-done name (failed m) rest g e = cc
add_entry-done name out_of_fuel rest g e = cc

names-dependencies :
    (services : Dict String Value) (g : Graph)
    → dependencies services ≡ done g
    → names g ≡ service_names services
unfolding dependencies
names-dependencies [] g e = let same : g ≡ [] = cc e in rw same
names-dependencies ((name, definition) ∷ rest) g e =
    let (items, g', _, tail, whole) = add_entry-done name _ (dependencies rest) g e in
    rw whole (ap (λ ns. name ∷ ns) (names-dependencies rest g' tail))

-- each name with exactly what it waits for
abbrev Exact : (String → List String) → Graph → Type 0
Exact f [] = Unit
Exact f ((n, items) ∷ g) = (f n ≡ items) × Exact f g

Exact-change :
    (f f' : String → List String) (g : Graph)
    → ((n : String) → member n (names g) ≡ true → f' n ≡ f n)
    → Exact f g
    → Exact f' g
Exact-change f f' [] same h = tt
Exact-change f f' ((n, items) ∷ g) same (p, h) =
    (same n (ground (arith, ==-refl n)) ∙ p, Exact-change f f' g (λ k m. same k (ground arith)) h)

distinct-ne :
    (name n : String) (ns : List String)
    → ((d : String) → count d (name ∷ ns) ≤ 1)
    → member n ns ≡ true
    → (name == n) ≡ false
distinct-ne name n ns unique m = elim (Bool-cases (name == n)) [
  | inl same ↦ absurd (ground (arith, unique n, (member_iff n ns).0 m))
  | inr other ↦ other
]

dependencies-Exact :
    (services : Dict String Value) (g : Graph)
    → Unique g
    → dependencies services ≡ done g
    → Exact (waits_for services) g
unfolding dependencies
dependencies-Exact [] g u e = let same : g ≡ [] = cc e in rw same tt
dependencies-Exact ((name, definition) ∷ rest) g u e =
    let (items, g', parsed, tail, whole) = add_entry-done name _ (dependencies rest) g e in
    let unique : (d : String) → count d (name ∷ names g') ≤ 1 =
      λ d. rw (ap (λ k. count d (names k)) whole) at (u d) in
    rw whole (
      ap (waits_in name) (lookup_first name definition rest) ∙ ap names_or_nil parsed,
      Exact-change (waits_for rest) (waits_for ((name, definition) ∷ rest)) g'
          (λ n m.
            ap (waits_in n)
              (lookup_later n name definition rest (distinct-ne name n (names g') unique m)))
          (dependencies-Exact rest g' (λ d. omega (arith, unique d)) tail),
    )

Exact-Waiting : (f : String → List String) (g : Graph) → Exact f g → Waiting f [] g
Exact-Waiting f [] h = tt
Exact-Waiting f ((n, items) ∷ g) (p, h) =
    (λ d m. ground (arith, sym (ap (member d) p) ∙ m), Exact-Waiting f g h)

Exact-Ranked :
    (f : String → List String) (rank : String → ℕ) (whole g : Graph)
    → ((n d : String)
        → member n (names g) ≡ true
        → member d (f n) ≡ true
        → (member d (names whole) ≡ true) × (rank d < rank n))
    → Exact f g
    → Ranked rank whole g
Exact-Ranked f rank whole [] ranked h = tt
Exact-Ranked f rank whole ((n, items) ∷ g) ranked (p, h) = (
  λ d m. ranked n d (ground (arith, ==-refl n)) (ap (member d) p ∙ m),
  Exact-Ranked f rank whole g (λ k d m. ranked k d (ground arith)) h,
)

or_invalid-fuelled : (name : String) (o : Option (List String)) → or_invalid name o ≢ out_of_fuel
or_invalid-fuelled name none e = cc
or_invalid-fuelled name (some items) e = cc

dependency_names-fuelled : (name : String) (v : Value) → dependency_names name v ≢ out_of_fuel
unfolding dependency_names
dependency_names-fuelled name null e = cc
dependency_names-fuelled name (sequence vs) e =
    or_invalid-fuelled name (non_empty_texts (item_list vs)) e
dependency_names-fuelled name (mapping es) e =
    or_invalid-fuelled name (non_empty_texts (keys_of (entry_list es))) e
dependency_names-fuelled name v e = cc

add_entry-fuelled :
    (name : String) (o : Outcome (List String)) (rest : Outcome Graph)
    → o ≢ out_of_fuel
    → rest ≢ out_of_fuel
    → add_entry name o rest ≢ out_of_fuel
add_entry-fuelled name (done items) (done g) h k e = cc
add_entry-fuelled name (done items) (failed m) h k e = cc
add_entry-fuelled name (done items) out_of_fuel h k e = k refl
add_entry-fuelled name (failed m) rest h k e = cc
add_entry-fuelled name out_of_fuel rest h k e = h refl

dependencies-fuelled : (services : Dict String Value) → dependencies services ≢ out_of_fuel
unfolding dependencies
dependencies-fuelled [] e = cc
dependencies-fuelled ((name, definition) ∷ rest) e =
    add_entry-fuelled name _ (dependencies rest)
      (dependency_names-fuelled name (get_key "depends_on" definition)) (dependencies-fuelled rest)
      e

order_graph-done :
    (o : Outcome Graph) (order : List String)
    → order_graph o ≡ done order
    → (g : Graph) × (o ≡ done g) × (rounds (length g) g ≡ done order)
order_graph-done (done g) order e = (g, refl, e)
order_graph-done (failed m) order e = cc
order_graph-done out_of_fuel order e = cc

module _ (services : Dict String Value)
    (distinct : (d : String) → count d (service_names services) ≤ 1) where
  graph-Unique : (g : Graph) → dependencies services ≡ done g → Unique g
  graph-Unique g e d = rw (names-dependencies services g e) (distinct d)

  -- Of a document with distinct service names: an order that is found holds every service exactly
  -- once and nothing else, and each service comes after all that it depends on.
  pub deployment_order_sound :
      (order : List String)
      → deployment_order services ≡ done order
      → DependencyFirst (waits_for services) [] order
        × ((d : String) → count d order ≡ count d (service_names services))
  unfolding deployment_order
  deployment_order_sound order e =
      let (g, read, found) = order_graph-done (dependencies services) order e in
      let unique = graph-Unique g read in
      (
        rounds-DependencyFirst (waits_for services) (length g) g [] order
            (Exact-Waiting (waits_for services) g (dependencies-Exact services g unique read))
            found,
        λ d.
            rounds-count (length g) g order unique found d
            ∙ ap (count d) (names-dependencies services g read),
      )

  -- Of a document that is read, with distinct service names: when every service only depends on
  -- services of the document of a lower rank, for some ranking, an order is found.
  pub deployment_order_complete :
      (g : Graph) (rank : String → ℕ)
      → dependencies services ≡ done g
      → ((n d : String)
          → member n (service_names services) ≡ true
          → member d (waits_for services n) ≡ true
          → (member d (service_names services) ≡ true) × (rank d < rank n))
      → (order : List String) × (deployment_order services ≡ done order)
  unfolding deployment_order
  deployment_order_complete g rank read ranked =
      let same = names-dependencies services g read in
      let (order, found) = rounds_total rank (length g) g (omega arith) (
        Exact-Ranked (waits_for services) rank g g (rw same ranked)
          (dependencies-Exact services g (graph-Unique g read) read)) in
      (order, ap order_graph read ∙ found)

-- The loop always comes to an end by itself: the fuel given to it is enough for any document.
pub deployment_order-fuelled :
    (services : Dict String Value) → deployment_order services ≢ out_of_fuel
unfolding deployment_order
deployment_order-fuelled services = by_graph (dependencies services) refl
  where
    by_graph : (o : Outcome Graph) → dependencies services ≡ o → order_graph o ≢ out_of_fuel
    by_graph (done g) read e = rounds-fuelled (length g) g (omega arith) e
    by_graph (failed m) read e = cc
    by_graph out_of_fuel read e = dependencies-fuelled services read

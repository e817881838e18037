-- ===== src/Deployment/Order/Complete.antt =====
-- An order is found whenever the dependencies allow one.
use docker_jenkins_orchestra.Prelude.{
  ℕ, zero, suc, ◌≤◌, ◌<◌, String, ◌≡◌, refl, ap, ◌≢◌, inl, inr, true, List, [], ◌∷◌, ◌++◌, arith,
  eq_iff, ◌==◌, nat_eq, string_eq, Bool-cases, ==-refl, option_eq, pair_eq, length,
}
use docker_jenkins_orchestra.Deployment.Order.{
  Graph, sort, ready, advance, member, done, failed, out_of_fuel, Outcome, rounds, turn,
}
use docker_jenkins_orchestra.Deployment.Order.Members.{
  count, names, count-sort, member_iff, member-without, count-advance, count-ready-le,
  length-advance_lt,
}

-- Every dependency is in the graph `whole`, at a lower rank.
abbrev pub Ranked : (String → ℕ) → Graph → Graph → Type 0
Ranked rank whole [] = Unit
Ranked rank whole ((n, items) ∷ g) =
    ((d : String) → member d items ≡ true → (member d (names whole) ≡ true) × (rank d < rank n))
    × Ranked rank whole g

module _ (rank : String → ℕ) where
  below :
      (whole g : Graph) (n : String)
      → Ranked rank whole g
      → ready g ≡ []
      → member n (names g) ≡ true
      → (d : String) × (member d (names whole) ≡ true) × (rank d < rank n)
  unfolding ready
  below whole [] n r idle m = cc
  below whole ((k, []) ∷ g) n r idle m = cc
  below whole ((k, d ∷ ds) ∷ g) n (p, r) idle m = elim (Bool-cases (k == n)) [
    | inl here ↦
        let (inside, lower) = p d (ground (arith, ==-refl d)) in
        let same : k ≡ n = (eq_iff k n).0 here in (d, inside, rw same at lower)
    | inr other ↦ below whole g n r idle (ground arith)
  ]

  never_stuck :
      (g : Graph) (k : ℕ) (n : String)
      → rank n < k
      → Ranked rank g g
      → ready g ≡ []
      → member n (names g) ≡ true
      → ⊥
  never_stuck g zero n lt r idle m = omega arith
  never_stuck g (suc k) n lt r idle m =
      let (d, inside, lower) = below g g n r idle m in never_stuck g k d (omega arith) r idle inside

  advance-Ranked :
      (gone : List String) (whole g : Graph)
      → Ranked rank whole g
      → Ranked rank (advance gone whole) (advance gone g)
  unfolding advance
  advance-Ranked gone whole [] r = tt
  advance-Ranked gone whole ((n, items) ∷ g) (p, r) = elim (Bool-cases (member n gone)) [
    | inl leaves ↦ rw leaves (advance-Ranked gone whole g r)
    | inr stays ↦ rw stays (
      λ d m. ground (
        arith,
        p d,
        member-without d gone items,
        member_iff d (names whole),
        member_iff d (names (advance gone whole)),
        count-advance d gone whole,
      ),
      advance-Ranked gone whole g r,
    )
  ]

sort-empty : (xs : List String) → sort xs ≡ [] → xs ≡ []
sort-empty [] e = refl
sort-empty (x ∷ xs) e =
    absurd (omega (arith, count-sort x (x ∷ xs), ap (count x) e, first_counts x xs))
  where
    first_counts : (x : String) (xs : List String) → 0 < count x (x ∷ xs)
    first_counts x xs = ground (arith, ==-refl x)

-- the first name of a batch stands in the graph
batch-counts :
    (n : String) (ns : List String) (g : Graph) → sort (ready g) ≡ n ∷ ns → 0 < count n (names g)
batch-counts n ns g e =
    ground (arith, count-ready-le n g, count-sort n (ready g), ap (count n) e, ==-refl n)

shrinks :
    (n : String) (ns : List String) (g : Graph)
    → sort (ready g) ≡ n ∷ ns
    → length (advance (n ∷ ns) g) < length g
shrinks n ns g e =
    length-advance_lt n (n ∷ ns) g (ground (arith, ==-refl n)) (batch-counts n ns g e)

turn-total :
    (n : String) (ns : List String) (o : Outcome (List String)) {rest : List String}
    → o ≡ done rest
    → turn (n ∷ ns) o ≡ done ((n ∷ ns) ++ rest)
turn-total n ns o e = rw e

module _ (rank : String → ℕ) where
  pub rounds_total :
      (fuel : ℕ) (g : Graph)
      → length g ≤ fuel
      → Ranked rank g g
      → (order : List String) × (rounds fuel g ≡ done order)
  unfolding rounds
  rounds_total fuel [] enough r = ([], refl)
  rounds_total zero (x ∷ g) enough r = absurd (omega arith)
  rounds_total (suc fuel) ((k, items) ∷ g) enough r = by_batch (sort (ready G)) refl (λ n ns e.
      rounds_total fuel (advance (n ∷ ns) G) (omega (arith, shrinks n ns G e))
        (advance-Ranked rank (n ∷ ns) G G r))
    where
      G : Graph
      G = (k, items) ∷ g

      by_batch :
          (batch : List String)
          → sort (ready G) ≡ batch
          → ((n : String) (ns : List String)
              → sort (ready G) ≡ n ∷ ns
              → (order : List String) × (rounds fuel (advance (n ∷ ns) G) ≡ done order))
          → (order : List String) × (turn
                (sort (ready G))
                (rounds fuel (advance (sort (ready G)) G))
              ≡ done order)
      by_batch [] e later = absurd (
          never_stuck rank G (suc (rank k)) k (omega arith) r (sort-empty (ready G) e)
            (ground (arith, ==-refl k)))
      by_batch (n ∷ ns) e later =
          let (rest, found) = later n ns e in rw e (n ∷ (ns ++ rest), turn-total n ns _ found)

prepend-fuelled :
    (n : String) (ns : List String) (o : Outcome (List String))
    → o ≢ out_of_fuel
    → turn (n ∷ ns) o ≢ out_of_fuel
prepend-fuelled n ns (done rest) h e = cc
prepend-fuelled n ns (failed m) h e = cc
prepend-fuelled n ns out_of_fuel h e = h refl

turn-fuelled :
    (batch : List String) (o : Outcome (List String))
    → ((n : String) (ns : List String) → batch ≡ n ∷ ns → o ≢ out_of_fuel)
    → turn batch o ≢ out_of_fuel
turn-fuelled [] o h e = cc
turn-fuelled (n ∷ ns) o h e = prepend-fuelled n ns o (h n ns refl) e

-- The fuel given is enough, whatever the graph.
pub rounds-fuelled : (fuel : ℕ) (g : Graph) → length g ≤ fuel → rounds fuel g ≢ out_of_fuel
unfolding rounds
rounds-fuelled fuel [] enough e = cc
rounds-fuelled zero (x ∷ g) enough e = absurd (omega arith)
rounds-fuelled (suc fuel) (x ∷ g) enough e =
    let batch = sort (ready (x ∷ g)) in
    turn-fuelled batch (rounds fuel (advance batch (x ∷ g)))
      (λ n ns first.
        rounds-fuelled fuel (advance batch (x ∷ g))
          (rw first (omega (arith, shrinks n ns (x ∷ g) first))))
      e

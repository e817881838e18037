-- ===== src/Deployment/Order/Sound.antt =====
-- An order that is found has every service once, and each after its dependencies.
use docker_jenkins_orchestra.Prelude.{
  ℕ, zero, suc, ◌≤◌, String, ◌≡◌, refl, sym, ◌∙◌, inl, inr, true, ◌||◌, List, [], ◌∷◌, ◌++◌, arith,
  nat_eq, string_eq, Bool-cases, option_eq, pair_eq, All,
}
use docker_jenkins_orchestra.Deployment.Order.{
  Graph, sort, ready, advance, member, done, failed, out_of_fuel, Outcome, rounds, turn,
}
use docker_jenkins_orchestra.Deployment.Order.Members.{
  Within, All-transfer, count, names, count-append, count-sort, member_iff, member-sort,
  member-append, member-without, count-advance, count-ready-le,
}

turn-done :
    (batch : List String) (o : Outcome (List String)) (order : List String)
    → turn batch o ≡ done order
    → (rest : List String) × (o ≡ done rest) × (order ≡ batch ++ rest)
turn-done [] o order e = cc
turn-done (n ∷ ns) (done rest) order e = (rest, refl, cc e)
turn-done (n ∷ ns) (failed m) order e = cc
turn-done (n ∷ ns) out_of_fuel order e = cc

-- Each name comes after all that it depends on; `seen` has come before.
abbrev pub DependencyFirst : (String → List String) → List String → List String → Type 0
DependencyFirst deps seen [] = Unit
DependencyFirst deps seen (n ∷ ns) =
    ((d : String) → member d (deps n) ≡ true → member d seen ≡ true)
    × DependencyFirst deps (n ∷ seen) ns

module _ (deps : String → List String) where
  DependencyFirst-mono :
      (xs seen seen' : List String)
      → Within seen seen'
      → DependencyFirst deps seen xs
      → DependencyFirst deps seen' xs
  DependencyFirst-mono [] seen seen' w h = tt
  DependencyFirst-mono (x ∷ xs) seen seen' w (here, h) = (
    λ d m. w d (here d m),
    DependencyFirst-mono xs (x ∷ seen) (x ∷ seen') (λ d m. ground (arith, w d)) h,
  )

  -- a batch of names that wait for nothing, and what follows
  DependencyFirst-append :
      (xs ys seen : List String)
      → All (λ n. Within (deps n) seen) xs
      → DependencyFirst deps (xs ++ seen) ys
      → DependencyFirst deps seen (xs ++ ys)
  DependencyFirst-append [] ys seen h k = k
  DependencyFirst-append (x ∷ xs) ys seen (p, h) k = (
    p,
    DependencyFirst-append xs ys (x ∷ seen) (All-weaken xs h) (
        DependencyFirst-mono ys (x ∷ (xs ++ seen)) (xs ++ (x ∷ seen))
          (λ d m. ground (arith, member-append d xs seen, member-append d xs (x ∷ seen))) k),
  )
    where
      All-weaken :
          (zs : List String)
          → All (λ n. Within (deps n) seen) zs
          → All (λ n. Within (deps n) (x ∷ seen)) zs
      All-weaken [] h = tt
      All-weaken (z ∷ zs) (q, h) = (λ d m. ground (arith, q d), All-weaken zs h)

  -- what every entry still waits for, besides what has come before
  abbrev pub Waiting : List String → Graph → Type 0
  Waiting seen [] = Unit
  Waiting seen ((n, items) ∷ g) =
      ((d : String) → member d (deps n) ≡ true → (member d items || member d seen) ≡ true)
      × Waiting seen g

  ready-Within :
      (seen : List String) (g : Graph) → Waiting seen g → All (λ n. Within (deps n) seen) (ready g)
  unfolding ready
  ready-Within seen [] h = tt
  ready-Within seen ((n, []) ∷ g) (p, h) = (p, ready-Within seen g h)
  ready-Within seen ((n, x ∷ xs) ∷ g) (p, h) = ready-Within seen g h

  advance-Waiting :
      (gone seen : List String) (g : Graph)
      → Waiting seen g
      → Waiting (gone ++ seen) (advance gone g)
  unfolding advance
  advance-Waiting gone seen [] h = tt
  advance-Waiting gone seen ((n, items) ∷ g) (p, h) = elim (Bool-cases (member n gone)) [
    | inl leaves ↦ rw leaves (advance-Waiting gone seen g h)
    | inr stays ↦ rw stays (
      λ d m. ground (arith, p d m, member-without d gone items, member-append d gone seen),
      advance-Waiting gone seen g h,
    )
  ]

  pub rounds-DependencyFirst :
      (fuel : ℕ) (g : Graph) (seen order : List String)
      → Waiting seen g
      → rounds fuel g ≡ done order
      → DependencyFirst deps seen order
  unfolding rounds
  rounds-DependencyFirst fuel [] seen order h e = let same : order ≡ [] = cc e in rw same tt
  rounds-DependencyFirst zero (x ∷ g) seen order h e = cc
  rounds-DependencyFirst (suc fuel) (x ∷ g) seen order h e =
      let batch = sort (ready (x ∷ g)) in
      let (rest, found, whole) = turn-done batch (rounds fuel (advance batch (x ∷ g))) order e in
      rw whole (
        DependencyFirst-append batch rest seen
          (All-transfer _ (ready (x ∷ g)) batch (ready-Within seen (x ∷ g) h)
            (λ d m. sym (member-sort d (ready (x ∷ g))) ∙ m))
          (rounds-DependencyFirst fuel (advance batch (x ∷ g)) (batch ++ seen) rest
            (advance-Waiting batch seen (x ∷ g) h) found))

-- Every name stands in the graph at most once: it is a dictionary.
abbrev pub Unique : Graph → Type 0
Unique g = (d : String) → count d (names g) ≤ 1

advance-Unique : (gone : List String) (g : Graph) → Unique g → Unique (advance gone g)
advance-Unique gone g u d = ground (arith, count-advance d gone g, u d)

pub rounds-count :
    (fuel : ℕ) (g : Graph) (order : List String)
    → Unique g
    → rounds fuel g ≡ done order
    → (d : String) → count d order ≡ count d (names g)
unfolding rounds
rounds-count fuel [] order u e d = let same : order ≡ [] = cc e in rw same
rounds-count zero (x ∷ g) order u e d = cc
rounds-count (suc fuel) (x ∷ g) order u e d =
    let batch = sort (ready (x ∷ g)) in
    let (rest, found, whole) = turn-done batch (rounds fuel (advance batch (x ∷ g))) order e in
    let later =
      rounds-count fuel (advance batch (x ∷ g)) rest (advance-Unique batch (x ∷ g) u) found d in
    rw whole (
      ground (
        arith,
        later,
        count-append d batch rest,
        count-sort d (ready (x ∷ g)),
        count-advance d batch (x ∷ g),
        count-ready-le d (x ∷ g),
        member_iff d batch,
        u d,
      ))

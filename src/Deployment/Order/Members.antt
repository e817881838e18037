-- ===== src/Deployment/Order/Members.antt =====
-- Members and counts of the lists that the loop handles.
use docker_jenkins_orchestra.Prelude.{
  ℕ, ◌+◌, ◌≤◌, ◌<◌, String, ◌≡◌, refl, ◌≢◌, ◌↔◌, inl, inr, true, not, ◌&&◌, ◌||◌, List, [], ◌∷◌,
  ◌++◌, arith, eq_iff, if◌then◌else◌, ◌==◌, nat_eq, string_eq, Bool-cases, ==-refl, option_eq,
  pair_eq, length, All,
}
use docker_jenkins_orchestra.Deployment.Order.{
  str_leb, sort_in, sort, member, without, Graph, ready, advance,
}

abbrev pub count : String → List String → ℕ
count d [] = 0
count d (x ∷ xs) = (if x == d then 1 else 0) + count d xs

abbrev pub names : Graph → List String
names [] = []
names ((name, items) ∷ g) = name ∷ names g

pub count-append : (d : String) (xs ys : List String) → count d (xs ++ ys) ≡ count d xs + count d ys
count-append d [] ys = omega arith
count-append d (x ∷ xs) ys = omega (arith, count-append d xs ys)

count-sort_in : (d s : String) (xs : List String) → count d (sort_in s xs) ≡ count d (s ∷ xs)
unfolding sort_in
count-sort_in d s [] = refl
count-sort_in d s (x ∷ xs) = ground (arith, count-sort_in d s xs)

pub count-sort : (d : String) (xs : List String) → count d (sort xs) ≡ count d xs
unfolding sort
count-sort d [] = refl
count-sort d (x ∷ xs) = ground (arith, count-sort_in d x (sort xs), count-sort d xs)

pub member_iff : (d : String) (xs : List String) → (member d xs ≡ true) ↔ (0 < count d xs)
member_iff d [] = (λ h. ground arith, λ h. ground arith)
member_iff d (x ∷ xs) = (λ h. ground (arith, member_iff d xs), λ h. ground (arith, member_iff d xs))

pub member-sort : (d : String) (xs : List String) → member d (sort xs) ≡ member d xs
member-sort d xs = ground (arith, member_iff d xs, member_iff d (sort xs), count-sort d xs)

pub member-append :
    (d : String) (xs ys : List String) → member d (xs ++ ys) ≡ (member d xs || member d ys)
member-append d [] ys = refl
member-append d (x ∷ xs) ys = ground (arith, member-append d xs ys)

pub member-without :
    (d : String) (gone xs : List String)
    → member d (without gone xs) ≡ (member d xs && not (member d gone))
unfolding without
member-without d gone [] = refl
member-without d gone (x ∷ xs) = ground (arith, member-without d gone xs, eq_iff x d)

pub count-advance :
    (d : String) (gone : List String) (g : Graph)
    → count d (names (advance gone g)) ≡ (if member d gone then 0 else count d (names g))
unfolding advance
count-advance d gone [] = ground arith
count-advance d gone ((name, items) ∷ g) = ground (arith, count-advance d gone g, eq_iff name d)

pub count-ready-le : (d : String) (g : Graph) → count d (ready g) ≤ count d (names g)
unfolding ready
count-ready-le d [] = omega arith
count-ready-le d ((name, []) ∷ g) = omega (arith, count-ready-le d g)
count-ready-le d ((name, x ∷ xs) ∷ g) = omega (arith, count-ready-le d g)

pub length-advance : (gone : List String) (g : Graph) → length (advance gone g) ≤ length g
unfolding advance
length-advance gone [] = omega arith
length-advance gone ((name, items) ∷ g) = ground (arith, length-advance gone g)

-- a name that goes makes the rest shorter
pub length-advance_lt :
    (d : String) (gone : List String) (g : Graph)
    → member d gone ≡ true
    → 0 < count d (names g)
    → length (advance gone g) < length g
unfolding advance
length-advance_lt d gone [] m h = absurd (omega arith)
length-advance_lt d gone ((name, items) ∷ g) m h = elim (Bool-cases (name == d)) [
  | inl here ↦ rw ((eq_iff name d).0 here, m) (omega (arith, length-advance gone g))
  | inr other ↦ ground (arith, length-advance_lt d gone g m, length-advance gone g)
]

abbrev pub Within : List String → List String → Type 0
Within xs ys = (d : String) → member d xs ≡ true → member d ys ≡ true

All-member :
    (P : String → Type 0) (xs : List String) → All P xs → (n : String) → member n xs ≡ true → P n
All-member P [] h n m = cc
All-member P (x ∷ xs) (p, h) n m = elim (Bool-cases (x == n)) [
  | inl here ↦ let same : x ≡ n = (eq_iff x n).0 here in rw same at p
  | inr other ↦ All-member P xs h n (ground arith)
]

pub All-transfer : (P : String → Type 0) (xs ys : List String) → All P xs → Within ys xs → All P ys
All-transfer P xs [] h w = tt
All-transfer P xs (y ∷ ys) h w = (
  All-member P xs h y (w y (ground (arith, ==-refl y))),
  All-transfer P xs ys h (λ d m. w d (ground arith)),
)

sort_in-ne_none : (s : String) (ss : List String) → sort_in s ss ≢ []
unfolding sort_in
sort_in-ne_none s [] h = cc h
sort_in-ne_none s (t ∷ ts) h = elim (Bool-cases (str_leb s t)) [
  | inl first ↦ let bad : s ∷ (t ∷ ts) ≡ [] = rw first at h in cc bad
  | inr later ↦ let bad : t ∷ sort_in s ts ≡ [] = rw later at h in cc bad
]

pub sort-none : (ss : List String) → sort ss ≡ [] → ss ≡ []
unfolding sort
sort-none [] h = refl
sort-none (s ∷ ss) h = absurd (sort_in-ne_none s (sort ss) h)

-- ===== src/Deployment/Order.antt =====
-- `_deployment_order`: the services of a Compose document, each after those that it depends on.
pub mod Members
pub mod Sound
pub mod Complete
pub mod Documents
use Prim.Native.String.{compare}
use Prim.Native.Nat.{Ordering}
use docker_jenkins_orchestra.Prelude.{
  ℕ, zero, suc, ◌+◌, ◌-◌, ◌*◌, ◌/◌, ◌%◌, ◌^◌, ◌≤◌, ◌<◌, String, ◌≡◌, refl, sym, ap, ◌∙◌, ◌≢◌, ◌↔◌,
  ◌⊎◌, inl, inr, Bool, true, false, not, ◌&&◌, ◌||◌, Option, none, some, List, [], ◌∷◌, ◌++◌, map,
  arith, eq_iff, ltb, leb, nat_beq, if◌then◌else◌, nat_beq_iff, leb_iff, ltb_iff, Eq, ◌==◌, nat_eq,
  string_eq, concat, Bool-cases, Option-cases, is_some, ==-refl, option_eq, pair_eq, length, take,
  drop, all, any, length-append, length-take, length-drop, All, All-append,
}
use docker_jenkins_orchestra.Prelude.Dict.{Dict}
use docker_jenkins_orchestra.Models.Value.{
  Value, null, str, sequence, mapping, item_list, entry_list, get_key,
}

-- Python's order on `str`, by code points
abbrev pub str_leb : String → String → Bool
str_leb s t = elim (compare s t) [ Ordering.gt ↦ false | _ ↦ true ]

pub sort_in : String → List String → List String
sort_in s [] = s ∷ []
sort_in s (t ∷ ts) = if str_leb s t then s ∷ (t ∷ ts) else t ∷ sort_in s ts

-- `sorted`
unfoldable pub sort : List String → List String
unfolding sort_in
sort [] = []
sort (s ∷ ss) = sort_in s (sort ss)

abbrev pub member : String → List String → Bool
member d [] = false
member d (x ∷ xs) = x == d || member d xs

-- `set.difference_update`
unfoldable pub without : List String → List String → List String
without gone [] = []
without gone (x ∷ xs) = let rest = without gone xs in if member x gone then rest else x ∷ rest

pub data Outcome {ℓ} (A : Type ℓ) : Type ℓ where
  done : A → Outcome A
  -- `DockerServiceError`
  failed : String → Outcome A
  out_of_fuel : Outcome A

-- the texts of a list, if all are non-empty texts
abbrev pub non_empty_texts : List Value → Option (List String)
non_empty_texts [] = some []
non_empty_texts (str s ∷ vs) = elim (non_empty_texts vs) [
  | none ↦ none
  | some ss ↦ if s == "" then none else some (s ∷ ss)
]
non_empty_texts (v ∷ vs) = none

abbrev pub keys_of : List (String × Value) → List Value
keys_of [] = []
keys_of ((k, v) ∷ es) = str k ∷ keys_of es

abbrev pub or_invalid : String → Option (List String) → Outcome (List String)
or_invalid name none =
    failed (concat ("Compose service " ∷ name ∷ " has an invalid dependency name" ∷ []))
or_invalid name (some items) = done items

-- the names under `depends_on`
unfoldable pub dependency_names : String → Value → Outcome (List String)
dependency_names name null = done []
dependency_names name (sequence vs) = or_invalid name (non_empty_texts (item_list vs))
dependency_names name (mapping es) = or_invalid name (non_empty_texts (keys_of (entry_list es)))
dependency_names name v = failed (concat ("Compose depends_on for " ∷ name ∷ " is invalid" ∷ []))

abbrev pub Graph : Type 0
Graph = Dict String (List String)

abbrev pub add_entry : String → Outcome (List String) → Outcome Graph → Outcome Graph
add_entry name (failed e) rest = failed e
add_entry name out_of_fuel rest = out_of_fuel
add_entry name (done items) (done g) = done ((name, items) ∷ g)
add_entry name (done items) other = other

-- the dictionary `dependencies`
unfoldable pub dependencies : Dict String Value → Outcome Graph
dependencies [] = done []
dependencies ((name, definition) ∷ rest) =
    add_entry name (dependency_names name (get_key "depends_on" definition)) (dependencies rest)

-- the names with nothing left to wait for
unfoldable pub ready : Graph → List String
ready [] = []
ready ((name, []) ∷ g) = name ∷ ready g
ready ((name, x ∷ xs) ∷ g) = ready g

-- the entries that are left, without the names that are gone
unfoldable pub advance : List String → Graph → Graph
advance gone [] = []
advance gone ((name, items) ∷ g) =
    let rest = advance gone g in
    if member name gone then rest else (name, without gone items) ∷ rest

abbrev pub prepend : List String → Outcome (List String) → Outcome (List String)
prepend names (done rest) = done (names ++ rest)
prepend names other = other

-- the batch of a turn in front of what the other turns give
abbrev pub turn : List String → Outcome (List String) → Outcome (List String)
turn [] rest = failed "Compose depends_on contains a cycle"
turn (n ∷ ns) rest = prepend (n ∷ ns) rest

-- `while remaining`, with fuel for the turns
unfoldable pub rounds : ℕ → Graph → Outcome (List String)
rounds fuel [] = done []
rounds zero (e ∷ g) = out_of_fuel
rounds (suc fuel) (e ∷ g) =
    let batch = sort (ready (e ∷ g)) in
    let rest = rounds fuel (advance batch (e ∷ g)) in turn batch rest

abbrev pub order_graph : Outcome Graph → Outcome (List String)
order_graph (done g) = rounds (length g) g
order_graph (failed e) = failed e
order_graph out_of_fuel = out_of_fuel

unfoldable pub deployment_order : Dict String Value → Outcome (List String)
deployment_order services = order_graph (dependencies services)

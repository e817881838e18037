-- ===== src/BuildContract/Contained.antt =====
-- The builds of an accepted document stay below the root of the sources.
use docker_jenkins_orchestra.Prelude.{
  String, ◌≡◌, refl, ap, ◌∙◌, inl, inr, false, ◌||◌, Option, none, some, List, [], ◌∷◌, ◌++◌, arith,
  if◌then◌else◌, ◌==◌, nat_eq, string_eq, Bool-cases, any,
}
use docker_jenkins_orchestra.Prelude.Dict.{lookup}
use docker_jenkins_orchestra.Models.Value.{
  Value, str, mapping, Entries, end, entry, entry_list, get_key, is_mapping, null, bool, int,
  negative, sequence,
}
use docker_jenkins_orchestra.Text.Strings.{split}
use docker_jenkins_orchestra.BuildContract.{
  accepted, contract_error, Contract, kept_parts, path_parts, is_absolute,
  validate_relative_build_path, normalize_local_build, validate_services, validate_service_map,
  validate_local_build_compose, ◌>>=◌,
}

-- A directory is the names on the way to it from the root, the last one first. What leads above
-- the root is nowhere.
abbrev pub parent : List String → Option (List String)
parent [] = none
parent (name ∷ at) = some at

abbrev pub enter : String → List String → Option (List String)
enter p at = if p == "" || p == "." then some at else if p == ".." then parent at else some (p ∷ at)

abbrev pub walk : List String → List String → Option (List String)
walk at [] = some at
walk at (p ∷ ps) = elim (enter p at) [ none ↦ none | some here ↦ walk here ps ]

-- where a path leads from a directory; an absolute one leads away
abbrev pub follow : List String → String → Option (List String)
follow at path = if is_absolute path then none else walk at (split b'/' path)

append-cons :
    (xs : List String) (p : String) (at : List String) → xs ++ (p ∷ at) ≡ (xs ++ p ∷ []) ++ at
append-cons [] p at = refl
append-cons (x ∷ xs) p at = ap (λ (l : List String). x ∷ l) (append-cons xs p at)

-- without a step up, a path leads down from where it starts
walk-down :
    (at ps : List String)
    → any (λ p. p == "..") (kept_parts ps) ≡ false
    → (down : List String) × (walk at ps ≡ some (down ++ at))
unfolding kept_parts
walk-down at [] h = ([], refl)
walk-down at (p ∷ ps) h = elim (Bool-cases (p == "" || p == ".")) [
  | inl skipped ↦ let (down, e) = walk-down at ps (rw skipped at h) in (down, rw (skipped, walk) e)
  | inr kept ↦
      let h' : (p == ".." || any (λ q. q == "..") (kept_parts ps)) ≡ false = rw kept at h in
      let not_up : (p == "..") ≡ false = ground arith in
      let later : any (λ q. q == "..") (kept_parts ps) ≡ false = ground arith in
      let (down, e) = walk-down (p ∷ at) ps later in
      (down ++ p ∷ [], rw (kept, not_up, walk) (e ∙ ap some (append-cons down p at)))
]

-- The context and the Dockerfile of a build, as texts that lead down: to a directory at the root
-- or below it, and from there to a place at that directory or below it.
abbrev pub LeadsDown : Value → Type 0
LeadsDown build =
    (context dockerfile : String) × (directory below : List String) × (get_key "context" build
      ≡ str context)
    × (get_key "dockerfile" build ≡ str dockerfile)
    × (follow [] context ≡ some directory)
    × (follow directory dockerfile ≡ some (below ++ directory))

>>=-accepted :
    {A B : Type 0} (m : Contract A) (f : A → Contract B) {b : B}
    → (m >>= f) ≡ accepted b
    → (a : A) × (m ≡ accepted a) × (f a ≡ accepted b)
>>=-accepted (accepted a) f h = (a, refl, h)
>>=-accepted (contract_error e) f h = cc h

validate_relative_build_path-accepted :
    (v : Value) (label : String) {u : Unit {0}}
    → validate_relative_build_path v label ≡ accepted u
    → (text : String) × (v ≡ str text)
      × (is_absolute text ≡ false)
      × (any (λ p. p == "..") (path_parts text) ≡ false)
unfolding validate_relative_build_path
validate_relative_build_path-accepted (str text) label h = (text, refl, ground arith, ground arith)
validate_relative_build_path-accepted null label h = cc h
validate_relative_build_path-accepted (bool b) label h = cc h
validate_relative_build_path-accepted (int n) label h = cc h
validate_relative_build_path-accepted (negative n) label h = cc h
validate_relative_build_path-accepted (sequence vs) label h = cc h
validate_relative_build_path-accepted (mapping es) label h = cc h

follow-down :
    (at : List String) (text : String)
    → is_absolute text ≡ false
    → any (λ p. p == "..") (path_parts text) ≡ false
    → (down : List String) × (follow at text ≡ some (down ++ at))
follow-down at text relative down =
    let (names, e) = walk-down at (split b'/' text) down in (names, rw relative e)

normalize_local_build-LeadsDown :
    (build : Value) (name : String) {v : Value}
    → normalize_local_build build name ≡ accepted v
    → LeadsDown build
unfolding normalize_local_build
normalize_local_build-LeadsDown (mapping es) name h =
    let (u, first, rest) = >>=-accepted (validate_relative_build_path _ _) _ h in
    let (u', second, _) = >>=-accepted (validate_relative_build_path _ _) _ rest in
    let (context, is_context, relative, down) =
      validate_relative_build_path-accepted (get_key "context" (mapping es)) _ first in
    let (dockerfile, is_dockerfile, relative', down') =
      validate_relative_build_path-accepted (get_key "dockerfile" (mapping es)) _ second in
    let (names, e) = follow-down [] context relative down in
    let (below, e') = follow-down (names ++ []) dockerfile relative' down' in
    (context, dockerfile, names ++ [], below, is_context, is_dockerfile, e, e')
normalize_local_build-LeadsDown null name h = cc h
normalize_local_build-LeadsDown (bool b) name h = cc h
normalize_local_build-LeadsDown (int n) name h = cc h
normalize_local_build-LeadsDown (negative n) name h = cc h
normalize_local_build-LeadsDown (str s) name h = cc h
normalize_local_build-LeadsDown (sequence vs) name h = cc h

validate_services-LeadsDown :
    (es : Entries) (name : String) (service : Value)
    → validate_services es ≡ accepted tt
    → lookup name (entry_list es) ≡ some service
    → LeadsDown (get_key "build" service)
unfolding validate_services lookup
validate_services-LeadsDown end name service h found = cc found
validate_services-LeadsDown (entry k s rest) name service h found =
    elim (Bool-cases (is_mapping s)) [
      | inr other ↦
          let bad : contract_error "Compose services must be named mappings" ≡ accepted tt =
            rw other at h in
          cc bad
      | inl named ↦
          let (v, normal, later) =
            >>=-accepted (normalize_local_build (get_key "build" s) k) _ (rw named at h) in
          elim (Bool-cases (k == name)) [
            | inl here ↦
                let same : some s ≡ some service = rw here at found in
                let one : s ≡ service = cc same in
                rw (← one) (normalize_local_build-LeadsDown (get_key "build" s) k normal)
            | inr there ↦ validate_services-LeadsDown rest name service later (rw there at found)
          ]
    ]

-- Of every service in a Compose document that the contract accepts: its build names a context and a
-- Dockerfile; the context leads from the root of the sources to a directory at the root or below
-- it, without leaving the root on the way; and so does the Dockerfile from that directory.
pub validate_local_build_compose_contained :
    (document : Value) (services : Entries) (name : String) (service : Value)
    → validate_local_build_compose document ≡ accepted tt
    → get_key "services" document ≡ mapping services
    → lookup name (entry_list services) ≡ some service
    → LeadsDown (get_key "build" service)
unfolding validate_local_build_compose
validate_local_build_compose_contained (mapping es) services name service h are found =
    by_services services (rw are at h) found
  where
    by_services :
        (fs : Entries)
        → validate_service_map (mapping fs) ≡ accepted tt
        → lookup name (entry_list fs) ≡ some service
        → LeadsDown (get_key "build" service)
    by_services end k found' = cc k
    by_services (entry n v rest) k found' =
        validate_services-LeadsDown (entry n v rest) name service k found'
validate_local_build_compose_contained null services name service h are found = cc are
validate_local_build_compose_contained (bool b) services name service h are found = cc h
validate_local_build_compose_contained (int n) services name service h are found = cc h
validate_local_build_compose_contained (negative n) services name service h are found = cc h
validate_local_build_compose_contained (str s) services name service h are found = cc h
validate_local_build_compose_contained (sequence vs) services name service h are found = cc h

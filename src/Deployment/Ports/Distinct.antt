-- ===== src/Deployment/Ports/Distinct.antt =====
-- The ports that an allocation gives are new and all different.
use docker_jenkins_orchestra.Prelude.{
  ℕ, zero, suc, ◌+◌, String, ◌≡◌, refl, sym, ap, ◌∙◌, inl, inr, Bool, true, false, Option, none,
  some, List, [], ◌∷◌, if◌then◌else◌, nat_eq, string_eq, Bool-cases, option_eq, pair_eq,
}
use docker_jenkins_orchestra.Deployment.Ports.{
  PublishedPort, Adapter, PortKey, is_occupied, key_of, try_port, search, search_range, choose,
  or_exhausted, allocate_port, allocate_from, allocate_ports, allocation_owner, wanted_port,
  record_port,
}
use docker_jenkins_orchestra.World.{raise-ok, pure-ok, Action, World, ok, pure, >>=-ok}

-- Each port is given a number whose key is neither occupied nor given before; nothing else of the
-- port changes.
abbrev pub Fresh : List PortKey → List PublishedPort → List PublishedPort → Type 0
Fresh occupied [] [] = Unit
Fresh occupied [] (a ∷ rest) = ⊥
Fresh occupied (p ∷ ps) [] = ⊥
Fresh occupied (p ∷ ps) (a ∷ rest) =
    (n : ℕ) × (a ≡ record p { published_port = some n })
    × (is_occupied (key_of p n) occupied ≡ false)
    × Fresh (key_of p n ∷ occupied) ps rest

module _ (adapter : Adapter) where
  try_port-free :
      (port : PublishedPort) (owner : String) (occupied : List PortKey) (n : ℕ) (w : World)
      → (try_port adapter port owner occupied n w).0 ≡ ok true
      → is_occupied (key_of port n) occupied ≡ false
  unfolding try_port
  try_port-free port owner occupied n w h =
      elim (Bool-cases (is_occupied (key_of port n) occupied)) [
        | inr free ↦ free
        | inl taken ↦ let clash : false ≡ true = pure-ok false true w (rw taken at h) in cc clash
      ]

  -- a tried port that is free, or what comes after it
  after_try :
      (port : PublishedPort) (occupied : List PortKey) (m n : ℕ) (free : Bool)
      (rest : Action (Option ℕ)) (v : World)
      → (free ≡ true → is_occupied (key_of port m) occupied ≡ false)
      → ((rest v).0 ≡ ok (some n) → is_occupied (key_of port n) occupied ≡ false)
      → ((if free then pure (some m) else rest) v).0 ≡ ok (some n)
      → is_occupied (key_of port n) occupied ≡ false
  after_try port occupied m n true rest v now later h =
      let same : some m ≡ some n = pure-ok (some m) (some n) v h in
      let one : m ≡ n = cc same in
      ap (λ k. is_occupied (key_of port k) occupied) (sym one) ∙ now refl
  after_try port occupied m n false rest v now later h = later h

  search-free :
      (port : PublishedPort) (owner : String) (occupied : List PortKey) (count candidate : ℕ)
      (w : World) (n : ℕ)
      → (search adapter port owner occupied count candidate w).0 ≡ ok (some n)
      → is_occupied (key_of port n) occupied ≡ false
  unfolding search
  search-free port owner occupied zero candidate w n h =
      let clash : none ≡ some n = pure-ok none (some n) w h in cc clash
  search-free port owner occupied (suc count) candidate w n h =
      let tried = try_port adapter port owner occupied candidate in
      let (free, seen, rest, _) = >>=-ok tried _ w h in
      after_try port occupied candidate n free
        (search adapter port owner occupied count (candidate + 1)) (tried w).1
        (λ e. try_port-free port owner occupied candidate w (seen ∙ ap ok e))
        (search-free port owner occupied count (candidate + 1) (tried w).1 n) rest

  choose-free :
      (port : PublishedPort) (owner : String) (occupied : List PortKey) (wanted : Option ℕ)
      (w : World) (n : ℕ)
      → (choose adapter port owner occupied wanted w).0 ≡ ok (some n)
      → is_occupied (key_of port n) occupied ≡ false
  unfolding choose
  choose-free port owner occupied none w n h = search-free port owner occupied _ _ w n h
  choose-free port owner occupied (some requested) w n h =
      let tried = try_port adapter port owner occupied requested in
      let (free, seen, rest, _) = >>=-ok tried _ w h in
      after_try port occupied requested n free (search_range adapter port owner occupied)
        (tried w).1 (λ e. try_port-free port owner occupied requested w (seen ∙ ap ok e))
        (search-free port owner occupied _ _ (tried w).1 n) rest

  or_exhausted-ok :
      (service_name : String) (found : Option ℕ) (n : ℕ) (w : World)
      → (or_exhausted adapter service_name found w).0 ≡ ok n
      → found ≡ some n
  or_exhausted-ok service_name none n w h = absurd (raise-ok _ n w h)
  or_exhausted-ok service_name (some m) n w h = ap some (pure-ok m n w h)

  module _ (resource_key : String → String → String → String) where
    allocate_port-free :
        (service_name : String) (index : ℕ) (port : PublishedPort) (occupied : List PortKey)
        (w : World) (n : ℕ)
        → (allocate_port adapter resource_key service_name index port occupied w).0 ≡ ok n
        → is_occupied (key_of port n) occupied ≡ false
    unfolding allocate_port
    allocate_port-free service_name index port occupied w n h =
        let owner = allocation_owner service_name index port in
        let (wanted, _, h1, _) = >>=-ok (wanted_port adapter port owner) _ w h in
        let (found, seen, h2, _) = >>=-ok (choose adapter port owner occupied wanted) _ _ h1 in
        let (chosen, picked, h3, _) = >>=-ok (or_exhausted adapter service_name found) _ _ h2 in
        let (_, _, h4, _) =
          >>=-ok (record_port adapter resource_key service_name port chosen) _ _ h3 in
        let same : chosen ≡ n = pure-ok chosen n _ h4 in
        let one : found ≡ some n =
          or_exhausted-ok service_name found chosen _ picked ∙ ap some same in
        choose-free port owner occupied wanted _ n (seen ∙ ap ok one)

    allocate_from-Fresh :
        (service_name : String) (index : ℕ) (ports : List PublishedPort) (occupied : List PortKey)
        (w : World) (allocated : List PublishedPort) (after : List PortKey)
        → (allocate_from adapter resource_key service_name index ports occupied w).0
          ≡ ok (allocated, after)
        → Fresh occupied ports allocated
    unfolding allocate_from
    allocate_from-Fresh service_name index [] occupied w allocated after h =
        let e = pure-ok ([], occupied) (allocated, after) w h in
        let none_left : [] ≡ allocated = ap (λ p. p.0) e in rw (sym none_left) tt
    allocate_from-Fresh service_name index (port ∷ ports) occupied w allocated after h =
        let (n, got, h1, _) =
          >>=-ok (allocate_port adapter resource_key service_name index port occupied) _ w h in
        let ((others, last), seen, h2, _) =
          >>=-ok
            (allocate_from adapter resource_key service_name (index + 1) ports
              (key_of port n ∷ occupied))
            _ _ h1 in
        let e =
          pure-ok (record port { published_port = some n } ∷ others, last) (allocated, after) _
            h2 in
        let whole : record port { published_port = some n } ∷ others ≡ allocated =
          ap (λ p. p.0) e in
        rw (sym whole) (
          n,
          refl,
          allocate_port-free service_name index port occupied w n got,
          allocate_from-Fresh service_name (index + 1) ports (key_of port n ∷ occupied) _ others
              last seen,
        )

    -- An allocation that succeeds gives every published port of the service a number whose key was
    -- not occupied and is given to no other port of the service, and changes nothing else of it.
    pub allocate_ports-Fresh :
        (service_name : String) (ports : List PublishedPort) (occupied : List PortKey) (w : World)
        (allocated : List PublishedPort) (after : List PortKey)
        → (allocate_ports adapter resource_key service_name ports occupied w).0
          ≡ ok (allocated, after)
        → Fresh occupied ports allocated
    unfolding allocate_ports
    allocate_ports-Fresh service_name ports occupied w allocated after h =
        allocate_from-Fresh service_name 0 ports occupied w allocated after h

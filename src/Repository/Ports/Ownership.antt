-- ===== src/Repository/Ports/Ownership.antt =====
-- A port that a build owns stays with it, whatever the other builds reserve and release.
use docker_jenkins_orchestra.Prelude.{
  ℕ, String, ◌≡◌, sym, ap, ◌∙◌, ◌≢◌, inl, inr, Bool, true, some, List, [], ◌∷◌, eq_iff, ◌==◌,
  nat_eq, string_eq, Bool-cases, Option-cases, ==-refl, option_eq, pair_eq,
}
use docker_jenkins_orchestra.Prelude.Dict.{lookup, lookup-insert, lookup-remove}
use docker_jenkins_orchestra.Repository.State.{Repository, PortIdentity, PortOwner}
use docker_jenkins_orchestra.Repository.Ports.{reserve_port, release_port}

abbrev pub same_owner : PortOwner → PortOwner → Bool
same_owner a b = a == b

-- One locked call on the ports.
pub data PortCall : Type 0 where
  reserve : String → String → ℕ → String → String → PortCall
  release : String → String → ℕ → String → PortCall

unfoldable pub perform : PortCall → Repository → Repository × Bool
perform (reserve target protocol port build_id service) r =
    reserve_port target protocol port build_id service r
perform (release target protocol port build_id) r = release_port target protocol port build_id r

unfoldable pub perform_all : List PortCall → Repository → Repository
perform_all [] r = r
perform_all (c ∷ cs) r = perform_all cs (perform c r).0

-- a release by the owning build is the only call that the owner must not have made
abbrev pub NotReleasedBy : String → List PortCall → Type 0
NotReleasedBy build_id [] = Unit
NotReleasedBy build_id (reserve _ _ _ _ _ ∷ cs) = NotReleasedBy build_id cs
NotReleasedBy build_id (release _ _ _ by ∷ cs) = (by ≢ build_id) × NotReleasedBy build_id cs

abbrev pub Owns : PortOwner → PortIdentity → Repository → Type 0
Owns owner identity r = lookup identity r.port_allocations ≡ some owner

module _ (owner : PortOwner) (identity : PortIdentity) where
  reserve-Owns :
      (target protocol : String) (port : ℕ) (build_id service : String) (r : Repository)
      → Owns owner identity r
      → Owns owner identity (reserve_port target protocol port build_id service r).0
  unfolding reserve_port
  reserve-Owns target protocol port build_id service r held =
      let asked : PortIdentity = (target, (protocol, port)) in
      elim (Option-cases (lookup asked r.port_allocations)) [
        | inl free ↦
            rw (free, reserve_port)
              (elim (Bool-cases (asked == identity)) [
                | inl same ↦
                    let e : asked ≡ identity = (pair_eq.beq_iff asked identity).0 same in
                    let moved = ap (λ (i : PortIdentity). lookup i r.port_allocations) e in
                    cc (moved, free, held)
                | inr other ↦ rw (lookup-insert, other) held
              ])
        | inr (previous, taken) ↦ rw (taken, reserve_port) held
      ]

  release-Owns :
      (target protocol : String) (port : ℕ) (build_id : String) (r : Repository)
      → build_id ≢ owner.0
      → Owns owner identity r
      → Owns owner identity (release_port target protocol port build_id r).0
  unfolding release_port
  release-Owns target protocol port build_id r ne held =
      let asked : PortIdentity = (target, (protocol, port)) in
      elim (Option-cases (lookup asked r.port_allocations)) [
        | inl free ↦ rw (free, release_port) held
        | inr (previous, taken) ↦
            rw (taken, release_port)
              (elim (Bool-cases (previous.0 == build_id)) [
                | inr foreign ↦ rw foreign held
                | inl own ↦ rw own (elim (Bool-cases (asked == identity)) [
                  | inr other ↦ rw (lookup-remove, other) held
                  | inl same ↦
                      let e : asked ≡ identity = (pair_eq.beq_iff asked identity).0 same in
                      let both : previous ≡ owner =
                        one (sym taken ∙ ap (λ i. lookup i r.port_allocations) e ∙ held) in
                      absurd (ne (sym ((eq_iff previous.0 build_id).0 own) ∙ ap (λ o. o.0) both))
                ])
              ])
      ]
    where
      one : {a b : PortOwner} → some a ≡ some b → a ≡ b
      one h = cc h

  perform_all-Owns :
      (cs : List PortCall) (r : Repository)
      → NotReleasedBy owner.0 cs
      → Owns owner identity r
      → Owns owner identity (perform_all cs r)
  unfolding perform_all perform
  perform_all-Owns [] r ok held = held
  perform_all-Owns (reserve target protocol port build_id service ∷ cs) r ok held =
      perform_all-Owns cs _ ok (reserve-Owns target protocol port build_id service r held)
  perform_all-Owns (release target protocol port build_id ∷ cs) r (ne, ok) held =
      perform_all-Owns cs _ ok (release-Owns target protocol port build_id r ne held)

answer :
    (target protocol : String) (port : ℕ) (build_id service : String) (owner : PortOwner)
    (r : Repository)
    → Owns owner (target, (protocol, port)) r
    → (reserve_port target protocol port build_id service r).1
      ≡ same_owner owner (build_id, service)
unfolding reserve_port
answer target protocol port build_id service owner r held = rw (held, reserve_port)

module _ (target protocol : String) (port : ℕ) (build_id service : String) where
  abbrev asked : PortIdentity
  asked = (target, (protocol, port))

  -- a reservation that is granted leaves the port with the one that asked
  granted-Owns :
      (r : Repository)
      → (reserve_port target protocol port build_id service r).1 ≡ true
      → Owns (build_id, service) asked (reserve_port target protocol port build_id service r).0
  unfolding reserve_port
  granted-Owns r granted = elim (Option-cases (lookup asked r.port_allocations)) [
    | inl free ↦ rw (free, reserve_port) (rw lookup-insert (rw (==-refl asked)))
    | inr (previous, taken) ↦
        let own : (previous == (build_id, service)) ≡ true = rw (taken, reserve_port) at granted in
        rw (taken, reserve_port)
          (taken ∙ ap some ((pair_eq.beq_iff previous (build_id, service)).0 own))
  ]

  -- A port whose reservation is granted stays with the build and the service that asked for it,
  -- whatever calls on any ports follow, as long as the build itself releases nothing; and a later
  -- reservation of the port is granted exactly to that build and service.
  pub reserve_port-exclusive :
      (cs : List PortCall) (r : Repository)
      → (reserve_port target protocol port build_id service r).1 ≡ true
      → NotReleasedBy build_id cs
      → let after = perform_all cs (reserve_port target protocol port build_id service r).0 in
        Owns (build_id, service) asked after
        × ((b s : String)
            → (reserve_port target protocol port b s after).1
              ≡ same_owner (build_id, service) (b, s))
  reserve_port-exclusive cs r granted ok =
      let kept = perform_all-Owns (build_id, service) asked cs _ ok (granted-Owns r granted) in
      (kept, λ b s. answer target protocol port b s (build_id, service) _ kept)

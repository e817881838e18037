-- ===== src/Repository/Ports.antt =====
-- The port allocations of `InMemoryRepository`: which service of which build owns a port.
pub mod Ownership
use docker_jenkins_orchestra.Prelude.{
  ℕ, zero, suc, ◌+◌, ◌-◌, ◌*◌, ◌/◌, ◌%◌, ◌^◌, ◌≤◌, ◌<◌, String, ◌≡◌, refl, sym, ap, ◌∙◌, ◌≢◌, ◌↔◌,
  ◌⊎◌, inl, inr, Bool, true, false, not, ◌&&◌, ◌||◌, Option, none, some, List, [], ◌∷◌, ◌++◌, map,
  arith, eq_iff, ltb, leb, nat_beq, if◌then◌else◌, nat_beq_iff, leb_iff, ltb_iff, Eq, ◌==◌, nat_eq,
  string_eq, concat, Bool-cases, Option-cases, is_some, ==-refl, option_eq, pair_eq, length, take,
  drop, all, any, length-append, length-take, length-drop, All, All-append,
}
use docker_jenkins_orchestra.Prelude.Dict.{Dict, lookup, insert, remove}
use docker_jenkins_orchestra.Repository.State.{Repository, PortIdentity, PortOwner}

abbrev pub store_ports : Dict PortIdentity PortOwner → Repository → Repository
store_ports ports r = record r { port_allocations = ports }

-- `setdefault`: the first owner stays.
unfoldable pub reserve_port : String → String → ℕ → String → String → Repository → Repository × Bool
reserve_port target protocol port build_id service_name r =
    let identity : PortIdentity = (target, (protocol, port)) in
    let owner : PortOwner = (build_id, service_name) in
    elim (lookup identity r.port_allocations) [
      | none ↦ (store_ports (insert identity owner r.port_allocations) r, true)
      | some previous ↦ (r, previous == owner)
    ]

unfoldable pub release_port : String → String → ℕ → String → Repository → Repository × Bool
release_port target protocol port build_id r =
    let identity : PortIdentity = (target, (protocol, port)) in
    elim (lookup identity r.port_allocations) [
      | none ↦ (r, true)
      | some owner ↦
          if owner.0 == build_id
          then (store_ports (remove identity r.port_allocations) r, true)
          else (r, false)
    ]

-- one entry of `list_build_ports`
pub record PortAllocation : Type 0 where
  pub target : String
  pub protocol : String
  pub port : ℕ
  pub build_id : String
  pub service_name : String

abbrev pub owned_ports : String → Dict PortIdentity PortOwner → List PortAllocation
owned_ports build_id [] = []
owned_ports build_id (((target, (protocol, port)), (owner, service_name)) ∷ ports) =
    let rest = owned_ports build_id ports in
    if owner == build_id
    then (record {
      target = target;
      protocol = protocol;
      port = port;
      build_id = owner;
      service_name = service_name;
    }
        ∷ rest)
    else rest

unfoldable pub list_build_ports : String → Repository → List PortAllocation
list_build_ports build_id r = owned_ports build_id r.port_allocations

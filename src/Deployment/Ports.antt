-- ===== src/Deployment/Ports.antt =====
-- `_allocate_ports` of orchestrator/docker_services.py: the published ports of a service.
pub mod Distinct
use docker_jenkins_orchestra.Prelude.{
  ℕ, zero, suc, ◌+◌, ◌-◌, ◌*◌, ◌/◌, ◌%◌, ◌^◌, ◌≤◌, ◌<◌, String, ◌≡◌, refl, sym, ap, ◌∙◌, ◌≢◌, ◌↔◌,
  ◌⊎◌, inl, inr, Bool, true, false, not, ◌&&◌, ◌||◌, Option, none, some, List, [], ◌∷◌, ◌++◌, map,
  arith, eq_iff, ltb, leb, nat_beq, if◌then◌else◌, nat_beq_iff, leb_iff, ltb_iff, Eq, ◌==◌, nat_eq,
  string_eq, concat, Bool-cases, Option-cases, is_some, ==-refl, option_eq, pair_eq, length, take,
  drop, all, any, length-append, length-take, length-drop, All, All-append,
}
use docker_jenkins_orchestra.Text.Decimal.{decimal}
use docker_jenkins_orchestra.Models.Value.{Value, null, int, str}
use docker_jenkins_orchestra.Models.Resources.{ResourceKind, ResourceState}
use docker_jenkins_orchestra.Repository.Ports
use docker_jenkins_orchestra.Repository.Ports.{PortAllocation}
use docker_jenkins_orchestra.Tracker.{ResourceTracker, ResourceReport, guard, record_resource}
use docker_jenkins_orchestra.World.{
  Action, Error, pure, raise, get_repository, put_repository, ◌>>=◌, ◌>>◌,
}

pub record PublishedPort : Type 0 where
  pub target_port : ℕ
  pub published_port : Option ℕ
  pub protocol : String
  pub mode : String

-- the fields of the adapter that the allocation reads
pub record Adapter : Type 0 where
  pub build_id : Option String
  pub tracker : Option ResourceTracker
  pub target : String
  pub node_id : Option String
  pub published_port_range_start : ℕ
  pub published_port_range_end : ℕ

-- port, protocol, mode
abbrev pub PortKey : Type 0
PortKey = ℕ × (String × String)

-- `key in occupied`
abbrev pub is_occupied : PortKey → List PortKey → Bool
is_occupied key [] = false
is_occupied key (k ∷ ks) = k == key || is_occupied key ks

unfoldable pub allocation_owner : String → ℕ → PublishedPort → String
allocation_owner service_name index port =
    concat
      (service_name ∷ ":" ∷ decimal index ∷ ":" ∷ decimal port.target_port ∷ ":" ∷ port.mode ∷ [])

abbrev pub allocation_of : String → PublishedPort → String → List PortAllocation → Option ℕ
allocation_of target port owner [] = none
allocation_of target port owner (a ∷ rest) =
    if a.target == target && a.protocol == port.protocol && a.service_name == owner
    then some a.port
    else allocation_of target port owner rest

abbrev pub owned_by : Option String → Action (List PortAllocation)
owned_by none = pure []
owned_by (some build_id) = do r ← get_repository; pure (Ports.list_build_ports build_id r)

abbrev pub or_requested : Option ℕ → Option ℕ → Option ℕ
or_requested none requested = requested
or_requested (some previous) requested = some previous

abbrev pub key_of : PublishedPort → ℕ → PortKey
key_of port number = (number, (port.protocol, port.mode))

module _ (adapter : Adapter) where
  -- the port to try first: the one that the build has from before, else the requested one
  unfoldable pub wanted_port : PublishedPort → String → Action (Option ℕ)
  wanted_port port owner = elim adapter.tracker [
    | none ↦ pure port.published_port
    | some tracker ↦ (do
      ports ← owned_by adapter.build_id
      pure (or_requested (allocation_of adapter.target port owner ports) port.published_port))
  ]

  abbrev pub reserve_for : ResourceTracker → String → ℕ → String → String → Action Bool
  reserve_for tracker build_id port protocol owner = do
    guard tracker
    r ← get_repository
    let (r', granted) = Ports.reserve_port adapter.target protocol port build_id owner r
    put_repository r'
    pure granted

  -- `_reserve_port`
  unfoldable pub reserve_port : ℕ → String → String → Action Bool
  reserve_port port protocol owner = elim adapter.tracker [
    | none ↦ pure true
    | some tracker ↦ elim adapter.build_id [
      | none ↦ pure true
      | some build_id ↦ reserve_for tracker build_id port protocol owner
    ]
  ]

  -- `key not in occupied and self._reserve_port(...)`
  unfoldable pub try_port : PublishedPort → String → List PortKey → ℕ → Action Bool
  try_port port owner occupied number =
      if is_occupied (key_of port number) occupied
      then pure false
      else reserve_port number port.protocol owner

  -- the loop over the candidates, `count` of them from `candidate` on
  unfoldable pub search : PublishedPort → String → List PortKey → ℕ → ℕ → Action (Option ℕ)
  search port owner occupied zero candidate = pure none
  search port owner occupied (suc count) candidate = do
    free ← try_port port owner occupied candidate
    if free then pure (some candidate) else search port owner occupied count (candidate + 1)

  abbrev pub search_range : PublishedPort → String → List PortKey → Action (Option ℕ)
  search_range port owner occupied =
      search port owner occupied
        (adapter.published_port_range_end + 1 - adapter.published_port_range_start)
        adapter.published_port_range_start

  unfoldable pub choose : PublishedPort → String → List PortKey → Option ℕ → Action (Option ℕ)
  choose port owner occupied none = search_range port owner occupied
  choose port owner occupied (some requested) = do
    free ← try_port port owner occupied requested
    if free then pure (some requested) else search_range port owner occupied

  abbrev pub or_exhausted : String → Option ℕ → Action ℕ
  or_exhausted service_name none = raise (
      Error.adapter_error (
        concat (
          "No available published port for Docker service "
          ∷ service_name
          ∷ " in range "
          ∷ decimal adapter.published_port_range_start
          ∷ "-"
          ∷ decimal adapter.published_port_range_end
          ∷ [])))
  or_exhausted service_name (some chosen) = pure chosen

  abbrev pub node_value : Option String → Value
  node_value none = null
  node_value (some node) = str node

  -- `_record` of a port, in a tracked deployment
  module _ (resource_key : String → String → String → String) where
    unfoldable pub record_port : String → PublishedPort → ℕ → Action (Unit {0})
    record_port service_name port chosen = elim adapter.tracker [
      | none ↦ pure tt
      | some tracker ↦ (do
        guard tracker
        record_resource resource_key tracker (record {
          kind = ResourceKind.port;
          name = concat (decimal chosen ∷ "/" ∷ port.protocol ∷ []);
          target = adapter.target;
          native_id = none;
          state = ResourceState.present;
          managed = true;
          metadata =
              ("node_id", node_value adapter.node_id)
              ∷ ("port", int chosen)
              ∷ ("protocol", str port.protocol)
              ∷ ("service_name", str service_name)
              ∷ [];
          error = none;
        })
        pure tt)
    ]

    unfoldable pub allocate_port : String → ℕ → PublishedPort → List PortKey → Action ℕ
    allocate_port service_name index port occupied = do
      let owner = allocation_owner service_name index port
      wanted ← wanted_port port owner
      found ← choose port owner occupied wanted
      chosen ← or_exhausted service_name found
      record_port service_name port chosen
      pure chosen

    -- the allocated ports, and the occupied ones afterwards
    unfoldable pub allocate_from :
        String → ℕ → List PublishedPort → List PortKey → Action (List PublishedPort × List PortKey)
    allocate_from service_name index [] occupied = pure ([], occupied)
    allocate_from service_name index (port ∷ ports) occupied = do
      chosen ← allocate_port service_name index port occupied
      (allocated, after) ←
          allocate_from service_name (index + 1) ports (key_of port chosen ∷ occupied)
      pure (record port { published_port = some chosen } ∷ allocated, after)

    unfoldable pub allocate_ports :
        String → List PublishedPort → List PortKey → Action (List PublishedPort × List PortKey)
    allocate_ports service_name ports occupied = allocate_from service_name 0 ports occupied

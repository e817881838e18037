-- ===== src/Examples/Published.antt =====
-- Two published ports of a tracked service, the first of them occupied.
use docker_jenkins_orchestra.Prelude.{
  ℕ, ◌≡◌, refl, Option, none, some, List, [], ◌∷◌, nat_eq, string_eq, option_eq, pair_eq,
}
use docker_jenkins_orchestra.Prelude.Dict.{lookup, insert}
use docker_jenkins_orchestra.Text.Regex.{fullmatch}
use docker_jenkins_orchestra.Repository.Ports
use docker_jenkins_orchestra.Text.Decimal.{decimal}
use docker_jenkins_orchestra.Repository.Resources.{put_build_resource, is_resource_key}
use docker_jenkins_orchestra.Tracker.{guard, record_resource, merge, conflict}
use docker_jenkins_orchestra.Deployment.Ports.{
  PublishedPort, Adapter, PortKey, allocate_ports, allocate_from, allocate_port, allocation_owner,
  wanted_port, choose, search, try_port, reserve_port, record_port,
}
use docker_jenkins_orchestra.Deployment.Ports.Distinct.{Fresh, allocate_ports-Fresh}
use docker_jenkins_orchestra.World.{ok, ◌>>=◌}
use docker_jenkins_orchestra.Examples.Trackers.{resource_key, w, tracker}

abbrev adapter : Adapter
adapter = record {
  build_id = some "b1";
  tracker = some tracker;
  target = "docker:node";
  node_id = some "node";
  published_port_range_start = 18000;
  published_port_range_end = 18999;
}

abbrev with_number : ℕ → Option ℕ → PublishedPort
with_number inside published = record {
  target_port = inside;
  published_port = published;
  protocol = "tcp";
  mode = "ingress";
}

abbrev ports : List PublishedPort
ports = with_number 80 (some 30000) ∷ with_number 81 none ∷ []

abbrev occupied : List PortKey
occupied = (30000, ("tcp", "ingress")) ∷ []

abbrev allocated : List PublishedPort
allocated = with_number 80 (some 18000) ∷ with_number 81 (some 18001) ∷ []

abbrev after : List PortKey
after = (18001, ("tcp", "ingress")) ∷ (18000, ("tcp", "ingress")) ∷ occupied

succeeds :
    (allocate_ports adapter resource_key "shop-web" ports occupied w).0 ≡ ok (allocated, after)
unfolding allocate_ports allocate_from allocate_port allocation_owner decimal wanted_port choose
    search try_port reserve_port record_port Ports.reserve_port Ports.list_build_ports guard
    record_resource merge conflict put_build_resource is_resource_key fullmatch lookup insert ◌>>=◌
succeeds = refl

allocate_ports-Fresh_example : Fresh occupied ports allocated
allocate_ports-Fresh_example =
    allocate_ports-Fresh adapter resource_key "shop-web" ports occupied w allocated after succeeds

-- ===== src/Examples/Cleaning.antt =====
-- A cleanup that removes what a build has left.
use docker_jenkins_orchestra.Prelude.{
  ◌≡◌, refl, true, none, some, [], ◌∷◌, nat_eq, string_eq, option_eq, pair_eq, All,
}
use docker_jenkins_orchestra.Prelude.Dict.{lookup, insert, values}
use docker_jenkins_orchestra.Text.Regex.{fullmatch}
use docker_jenkins_orchestra.Models.Resources.{
  BuildResource, BuildResources, CleanupStatus, ResourceKind, ResourceState,
}
use docker_jenkins_orchestra.Repository.Resources.{
  is_resource_key, put_build_resource, update_build_resources, update_manifest_fields,
}
use docker_jenkins_orchestra.Tracker.{ResourceTracker, guard, update}
use docker_jenkins_orchestra.Cleanup.Run.{
  Progress, Docker, Cleaners, observe, remove_resource, clean_resource, clean_resources,
}
use docker_jenkins_orchestra.Cleanup.Run.Finish.{clean_build, clean_kinds, save_result}
use docker_jenkins_orchestra.Cleanup.Run.Order.{IsSettled, remove_resource_lem}
use docker_jenkins_orchestra.Cleanup.Run.Sound.{Cleaned, clean_build_lem}
use docker_jenkins_orchestra.World.{World, Result, ok, pure, ◌>>=◌}
use docker_jenkins_orchestra.Examples.{a_manifest, a_world, two_builds}

abbrev network : BuildResource
network = record {
  key = "0123456789abcdef0123456789abcdef0123456789abcdef0123456789abcdef";
  kind = ResourceKind.network;
  name = "shop-b1";
  target = "docker:node-1";
  native_id = some "n1";
  managed = true;
  state = ResourceState.present;
  metadata = [];
  error = none;
  created_at = 0;
  updated_at = 0;
}

abbrev m : BuildResources
m = record (a_manifest "b1" (some "uuid-0") (some 9000)) { resources = (network.key, network) ∷ [] }

abbrev w : World
w = a_world (record two_builds { build_resources = ("b1", m) ∷ [] })

-- the lease that the worker holds
abbrev tracker : ResourceTracker
tracker = record { build_id = "b1"; owner = some "uuid-0" }

-- a Docker that finds nothing more and removes what it is told to
abbrev docker : Docker
docker = record {
  discover = λ t. pure tt;
  wait_containers_stopped = λ t. pure tt;
  assert_directory_unused = λ t. pure tt;
  remove = λ resource t. pure tt;
  verify_empty = λ t. pure tt;
}

abbrev cleaners : Cleaners
cleaners = record {
  collect_builder_resources = λ n t. pure tt;
  docker = ok docker;
  delete_snapshot = λ resource. ok tt;
  remove_build_tag = λ resource t. pure "waiting_gc";
  resource_key =
      λ kind target name. "0000000000000000000000000000000000000000000000000000000000000000";
}

abbrev progress : Progress
progress = record {
  docker = some docker;
  discovery_complete = true;
  errors = [];
  registry_states = [];
}

removes : (remove_resource cleaners tracker progress network w).0 ≡ ok []
unfolding remove_resource update put_build_resource is_resource_key lookup insert values ◌>>=◌
    fullmatch
removes = refl

remove_resource_lem_example :
    (true ≡ true)
    × ((n : BuildResources) × (lookup "b1" w.repository.build_resources ≡ some n)
        × All IsSettled (values n.resources))
remove_resource_lem_example =
    remove_resource_lem cleaners tracker progress network [] w refl removes

abbrev after : Result CleanupStatus × World
after = clean_build cleaners m tracker w

succeeds : after.0 ≡ ok CleanupStatus.succeeded
unfolding clean_build clean_kinds clean_resources clean_resource remove_resource save_result observe
    guard update put_build_resource update_build_resources update_manifest_fields is_resource_key
    lookup insert values ◌>>=◌ fullmatch
succeeds = refl

clean_build_lem_example : Cleaned "b1" after.1
clean_build_lem_example = clean_build_lem cleaners m tracker w succeeds

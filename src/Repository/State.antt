-- ===== src/Repository/State.antt =====
-- The collections of `InMemoryRepository`. A stored model is never aliased: the code copies it on
-- the way in and on the way out.
use docker_jenkins_orchestra.Prelude.{ℕ, String, List, []}
use docker_jenkins_orchestra.Prelude.Dict.{Dict}
use docker_jenkins_orchestra.Models.App.{UserAppRecord, AgentRole}
use docker_jenkins_orchestra.Models.Build.{BuildJob, AppEvent, Alert}
use docker_jenkins_orchestra.Models.Resources.{BuildResources}
use docker_jenkins_orchestra.Models.RouteCheck.{RouteCheckResult}

-- target, protocol, port
abbrev pub PortIdentity : Type 0
PortIdentity = String × (String × ℕ)

-- build_id, service_name
abbrev pub PortOwner : Type 0
PortOwner = String × String

pub record Repository : Type 0 where
  pub apps : Dict String UserAppRecord
  pub builds : Dict String BuildJob
  pub events : List AppEvent
  pub alerts : Dict String Alert
  pub build_resources : Dict String BuildResources
  pub port_allocations : Dict PortIdentity PortOwner
  pub agent_roles : Dict String AgentRole
  pub route_checks : Dict String RouteCheckResult

abbrev pub empty_repository : Repository
empty_repository = record {
  apps = [];
  builds = [];
  events = [];
  alerts = [];
  build_resources = [];
  port_allocations = [];
  agent_roles = [];
  route_checks = [];
}

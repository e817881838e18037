-- ===== src/Lib.antt =====
-- The orchestrator of application builds: it keeps applications, builds and the resources of each
-- build in a repository, moves a build through its life, and names what it creates in Docker.
-- All paths below are under `orchestrator/`.
--
-- Prelude: Boolean tests, lists over the native numbers, and Python's `dict` as an association
--   list in insertion order (Prelude/Dict).
-- Text, Text/Regex: texts as lists of code points, and regular expressions matched by
--   derivatives, with the language that each one stands for (Text/Regex/Language). Text/Strings is
--   Python's `strip`, `split` and `int`, Text/Decimal its `str` of a number, Text/Rounded its
--   `Decimal` in the default context of 28 digits.
-- Models: models.py. One record for each stored model, one data type for each enumeration. A
--   datetime is its number of microseconds. Models/Value is the type of JSON and YAML values.
-- Repository: `InMemoryRepository` of repository.py. Repository/State is its collections,
--   Repository/Builds the methods on builds, events and alerts, Repository/Resources those on
--   resource manifests and their leases, Repository/Ports those on port allocations,
--   Repository/RouteChecks those on route checks, Repository/Roles those on agent roles. The lock
--   makes each method one step.
-- World: what a method may touch, which is the repository, the clock, `uuid4` and the message
--   broker (tasks.py), and a monad of actions that may raise. The clock, the identifiers and the
--   broker's answers are functions that nothing here defines.
-- Services/Build, Services/Failure: `BuildService.transition` and `BuildService.fail` of
--   services.py. A call reads a build and later writes it by a compare-and-swap; what other
--   workers do to the repository in between is the parameter `others`.
-- Naming: naming.py. SHA-256 is the parameter `hexdigest`.
-- Deployment/Order: `DockerSwarmAdapter._deployment_order` of docker_services.py. The loop runs on
--   fuel, as many turns as the document has services.
-- Tracker: `ResourceTracker` of build_resources.py, which writes the manifest of a build under the
--   lease that Repository/Resources guards. The key of a resource, a SHA-256, is the parameter
--   `resource_key`.
-- Deployment/Ports: `_allocate_ports`, `_reserve_port` and `_record` of docker_services.py. The loop
--   over the candidates runs once for each port of the configured range.
-- Compose: `validate_compose` and `_service_kwargs` of docker_services.py, with a module for each
--   group of conversions: Ports, Environment (with commands and labels), Mounts, Health (with
--   durations), Deploy, Resources; Features is `_validate_compose_features`, Document the document
--   as a whole, Service what a service is created with. Compose/Checked is the monad of
--   conversions, which raise `DockerServiceError`. The loop over the parts of a duration runs on
--   fuel, as many turns as the text has characters. Python's `str` of a list or a mapping (`repr`)
--   and docker.utils.parse_bytes (`parse_bytes`) are parameters.
-- RouteChecks: `RouteCheckService` of route_checks.py. Commit resolves a commit, Submit stores and
--   sends a check, Lease and Execute run it, Outcome judges what the agent gives, Gate is what a
--   build has to pass. A `StaticRun` holds what one run meets outside the program, and what the
--   other workers do to the repository meanwhile.
-- Cleanup: `build_lease` and `BuildResourceService` of build_resources.py; what Jenkins answers is
--   the record `Jenkins`, and the manifest of a build of an older version the parameter `legacy`.
-- Cleanup/Run: `BuildCleanupRunner.run` of build_resources.py, up to its last loop, which marks the
--   records of the removed services; a `Cleaners` holds what removes the resources outside.
-- BuildContract: compose_contract.py, without the look at the file system. A path is a text, and
--   what pathlib makes of it its parts between slashes.
-- Teardown: `sync_teardown` and `teardown` of dynamic_checks.py; the cleanup that `teardown` calls is
--   a parameter, and the only other writer.
-- Services/Queue: `BuildService.queue_build` of services.py, on the gate of RouteChecks, the lease of
--   Cleanup and the tracker; a `Surroundings` holds what the service is given.
-- Examples: concrete inputs, and the theorems applied to them.
--
-- Not modelled: the MongoDB repository (a database driver's guarantees), the clients of Docker,
-- Jenkins, GitLab and the registry, the worker runtime, the run of the dynamic checks, the
-- collection of the builder's resources, the templates, the HTTP API and the web interface. An
-- update carries only fields that its model has: the code's checks of unknown field names are
-- types here. Floats do not occur among the values, the keys of a mapping are texts, and digits
-- and letters are those of ASCII.
pub mod Prelude
pub mod Models
pub mod Repository
pub mod World
pub mod Services
pub mod Text
pub mod Naming
pub mod Deployment
pub mod BuildContract
pub mod Cleanup
pub mod Compose
pub mod RouteChecks
pub mod Teardown
pub mod Tracker
pub mod Examples

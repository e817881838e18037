-- ===== src/Compose/Service.antt =====
-- `_service_kwargs` and `_build_labels` of orchestrator/docker_services.py: what a service is
-- created or updated with.
pub mod Accepted
use docker_jenkins_orchestra.Prelude.{
  ℕ, zero, suc, ◌+◌, ◌-◌, ◌*◌, ◌/◌, ◌%◌, ◌^◌, ◌≤◌, ◌<◌, String, ◌≡◌, refl, sym, ap, ◌∙◌, ◌≢◌, ◌↔◌,
  ◌⊎◌, inl, inr, Bool, true, false, not, ◌&&◌, ◌||◌, Option, none, some, List, [], ◌∷◌, ◌++◌, map,
  arith, eq_iff, ltb, leb, nat_beq, if◌then◌else◌, nat_beq_iff, leb_iff, ltb_iff, Eq, ◌==◌, nat_eq,
  string_eq, concat, Bool-cases, Option-cases, is_some, ==-refl, option_eq, pair_eq, length, take,
  drop, all, any, length-append, length-take, length-drop, All, All-append,
}
use docker_jenkins_orchestra.Prelude.Dict.{Dict, insert}
use docker_jenkins_orchestra.Deployment.Ports.{PublishedPort}
use docker_jenkins_orchestra.Models.Value.{
  Value, null, str, sequence, mapping, Entries, Items, end, entry, nil, cons, get_key,
}
use docker_jenkins_orchestra.Compose.Checked.{reject, ◌>>=◌, ◌>>◌, refuse_if, each}
use docker_jenkins_orchestra.Compose.Fields.{texts, text_entries, put_last, put_some}
use docker_jenkins_orchestra.Compose.Environment.{environment, labels, command}
use docker_jenkins_orchestra.Compose.Ports.{endpoint_spec}
use docker_jenkins_orchestra.Compose.Mounts.{mounts, shm_mount}
use docker_jenkins_orchestra.Compose.Health.{healthcheck}
use docker_jenkins_orchestra.Compose.Deploy.{mode, restart_policy}
use docker_jenkins_orchestra.Compose.Resources.{resources}
use docker_jenkins_orchestra.Compose.Features.{working_dir, unless_null}
use docker_jenkins_orchestra.World.{Result, ok, err}

abbrev pub owner_labels : String → String → Dict String String → Dict String String
owner_labels appid namespace given =
    insert "io.docker-jenkins-orchestrator.namespace" namespace
      (insert "io.docker-jenkins-orchestrator.appid" appid given)

-- `labels.update(self._build_labels(...))`
unfoldable pub build_labels :
    Option String → String → String → String → Dict String String → Dict String String
build_labels none appid namespace logical_name given = owner_labels appid namespace given
build_labels (some build_id) appid namespace logical_name given =
    insert "io.docker-jenkins-orchestrator.logical-name" logical_name (
      insert "io.docker-jenkins-orchestrator.managed" "true" (
        insert "io.docker-jenkins-orchestrator.build-id" build_id
          (owner_labels appid namespace given)))

abbrev pub container_labels : Option String → Value → Option Value
container_labels none labels = none
container_labels (some build_id) labels = some labels

abbrev pub as_text : Option String → Option Value
as_text none = none
as_text (some s) = some (str s)

abbrev pub mount_items : List String → Option Value → Items
mount_items [] none = nil
mount_items [] (some shm) = cons shm nil
mount_items (m ∷ ms) shm = cons (str m) (mount_items ms shm)

-- `if mounts:`
abbrev pub mount_list : Items → Option Value
mount_list nil = none
mount_list (cons m ms) = some (sequence (cons m ms))

abbrev pub network_settings : String → String → Value
network_settings network_target compose_name = sequence (
    cons
      (mapping (
        entry "Target" (str network_target)
          (entry "Aliases" (sequence (cons (str compose_name) nil)) end)))
      nil)

-- `repr` is Python's `str` of a list or of a mapping, and `parse_bytes` docker.utils.parse_bytes.
module _ (repr : Value → String) (parse_bytes : String → Result (Bool × ℕ)) where
  unfoldable pub service_kwargs :
      Option String
      → String
      → String
      → String
      → Value
      → String
      → List PublishedPort
      → Dict String String
      → Result Value
  service_kwargs build_id appid namespace compose_name definition network_target ports
        volume_sources =
      do
        given ← labels repr appid compose_name (get_key "labels" definition) (some namespace)
        let owned =
            mapping (text_entries (build_labels build_id appid namespace compose_name given))
        env ← environment repr (get_key "environment" definition)
        argv ← unless_null command (get_key "command" definition)
        directory ← working_dir (get_key "working_dir" definition)
        mounted ← mounts volume_sources (get_key "volumes" definition)
        shared ← unless_null (shm_mount parse_bytes) (get_key "shm_size" definition)
        replication ← mode (get_key "deploy" definition)
        policy ← restart_policy (get_key "restart" definition) (get_key "deploy" definition)
        limits ← resources repr parse_bytes (get_key "deploy" definition)
        health ← healthcheck (get_key "healthcheck" definition)
        let base = entry "env" (sequence (texts env)) (
            entry "labels" owned
              (entry "networks" (network_settings network_target compose_name) end))
        let process = put_some "workdir" (as_text directory) (
            put_some "command" argv
              (put_some "container_labels" (container_labels build_id owned) base))
        let attached =
            put_some "endpoint_spec" (endpoint_spec ports)
              (put_some "mounts" (mount_list (mount_items mounted shared)) process)
        ok (
            mapping (
              put_some "healthcheck" health (
                put_some "resources" limits
                  (put_some "restart_policy" policy (put_some "mode" replication attached)))))

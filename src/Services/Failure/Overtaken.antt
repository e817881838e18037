-- ===== src/Services/Failure/Overtaken.antt =====
-- What `fail` does when another worker moves the build between its read and its write.
use docker_jenkins_orchestra.Prelude.{
  ◌+◌, String, none, some, List, nat_eq, string_eq, option_eq, pair_eq,
}
use docker_jenkins_orchestra.Models.Value.{Value}
use docker_jenkins_orchestra.Models.Build.{BuildJob, Alert}
use docker_jenkins_orchestra.Repository.State.{Repository}
use docker_jenkins_orchestra.Repository.Builds
use docker_jenkins_orchestra.Repository.Builds.{BuildField}
use docker_jenkins_orchestra.Services.Failure.{FailureReport, failure_fields}
use docker_jenkins_orchestra.World.{World}

module _ (others : Repository → Repository) (text_of : Value → String) (id message : String)
    (report : FailureReport) (w : World) where
  -- the world as the other workers leave it, once `transition` has read the clock
  abbrev pub overtaken : World
  overtaken = record w { repository = others w.repository; ticks = w.ticks + 1 }

  abbrev fields : List BuildField
  fields = failure_fields text_of message report

  abbrev pub late_alert : BuildJob → Alert
  late_alert b = record {
    alert_id = w.uuids w.drawn;
    appid = b.appid;
    build_id = some b.build_id;
    severity = "error";
    message = message;
    resolved_at = none;
    created_at = w.clock (w.ticks + 1);
  }

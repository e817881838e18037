-- ===== src/Services/Failure/Outcome.antt =====
-- What `fail` leaves behind.
use docker_jenkins_orchestra.Prelude.{
  ◌+◌, String, ◌≡◌, refl, ap, ◌∙◌, false, none, some, List, arith, if◌then◌else◌, ◌==◌, nat_eq,
  string_eq, option_eq, pair_eq,
}
use docker_jenkins_orchestra.Prelude.Dict.{lookup, insert, lookup-insert}
use docker_jenkins_orchestra.Models.Value.{Value}
use docker_jenkins_orchestra.Models.Build.{
  BuildStatus, failed, BuildJob, Alert, build_status_eq, is_terminal,
}
use docker_jenkins_orchestra.Repository.Builds
use docker_jenkins_orchestra.Repository.Builds.{BuildField, moved, update_build_fields}
use docker_jenkins_orchestra.Services.Build.{
  get_build-bind_found, record_event, conclude, transition, transition_fields, refuses,
}
use docker_jenkins_orchestra.Services.Build.Lifecycle.{status-moved}
use docker_jenkins_orchestra.Services.Build.History.{update_build_fields-append}
use docker_jenkins_orchestra.Services.Build.Outcome.{
  after_transition, stored, transition-eq_conclude,
}
use docker_jenkins_orchestra.Services.Failure.{
  FailureReport, failure_fields, raise_alert, fail, fail_from,
}
use docker_jenkins_orchestra.World.{World, ok, >>=-cong, ◌>>=◌}

pub failed-ne_active : (s : BuildStatus) → is_terminal s ≡ false → (s == failed) ≡ false
failed-ne_active s h = ground arith

pub failed-allowed : (s : BuildStatus) → is_terminal s ≡ false → refuses s failed ≡ false
failed-allowed s h = ground arith

module _ (text_of : Value → String) where
  error-failure_fields :
      (b : BuildJob) (message : String) (report : FailureReport)
      → (update_build_fields (failure_fields text_of message report) b).error ≡ some message
  unfolding failure_fields update_build_fields
  error-failure_fields b message report = ground arith

  module _ (id message : String) (report : FailureReport) (w : World) where
    abbrev fields : List BuildField
    fields = failure_fields text_of message report

    error-moved : (b : BuildJob) → (after_transition id failed fields w b).error ≡ some message
    unfolding moved transition_fields update_build_fields
    error-moved b = rw (update_build_fields-append fields) (error-failure_fields b message report)

    abbrev pub alert_of : BuildJob → Alert
    alert_of b = record {
      alert_id = w.uuids (w.drawn + 1);
      appid = b.appid;
      build_id = some b.build_id;
      severity = "error";
      message = message;
      resolved_at = none;
      created_at = w.clock (w.ticks + 1 + 1);
    }

    conclude-raise_alert :
        (b : BuildJob) (v : World)
        → let after = (conclude id failed (some b) >>= raise_alert text_of message report) v in
          (after.0 ≡ ok b)
          × (after.1.repository.builds ≡ v.repository.builds)
          × (after.1.repository.alerts
              ≡ insert
                  (v.uuids (v.drawn + 1))
                  (record {
                    alert_id = v.uuids (v.drawn + 1);
                    appid = b.appid;
                    build_id = some b.build_id;
                    severity = "error";
                    message = message;
                    resolved_at = none;
                    created_at = v.clock (v.ticks + 1);
                  })
                  v.repository.alerts)
    unfolding conclude raise_alert record_event Builds.create_alert Builds.append_event ◌>>=◌
    conclude-raise_alert b v = (refl, refl, refl)

    -- With no other writer in between, of a stored build whose life is not over: it is stored as
    -- failed, with the message as its error, and returned; no other build changes; one alert with
    -- the message is stored, under an identifier from uuid4.
    pub fail_closes :
        (b : BuildJob)
        → lookup id w.repository.builds ≡ some b
        → is_terminal b.status ≡ false
        → let after = fail text_of (λ r. r) id message report w in
          let built = after_transition id failed fields w b in
          (after.0 ≡ ok built)
          × (built.status ≡ failed)
          × (built.error ≡ some message)
          × ((j : String)
              → lookup j after.1.repository.builds
                ≡ (if id == j then some built else lookup j w.repository.builds))
          × (after.1.repository.alerts
              ≡ insert (w.uuids (w.drawn + 1)) (alert_of built) w.repository.alerts)
    unfolding fail fail_from
    fail_closes b found alive =
        let moves =
          transition-eq_conclude id failed fields w b found (failed-ne_active b.status alive)
            (failed-allowed b.status alive) in
        let (returned, builds, alerts) =
          conclude-raise_alert (after_transition id failed fields w b)
            (stored id failed fields w b) in
        rw (get_build-bind_found id (fail_from text_of (λ r. r) id message report) w b found) (
          rw alive (
            rw
              (>>=-cong (transition (λ r. r) id failed fields)
                (conclude id failed (some (after_transition id failed fields w b)))
                (raise_alert text_of message report) w (stored id failed fields w b) moves)
              (
                returned,
                status-moved failed _ b,
                error-moved b,
                λ j.
                    ap (lookup j) builds
                    ∙ lookup-insert id j (after_transition id failed fields w b)
                        w.repository.builds,
                alerts,
              )))

-- ===== src/Examples/Durations.antt =====
-- A duration that is read to its end.
use docker_jenkins_orchestra.Prelude.{◌≢◌, nat_eq, string_eq, option_eq, pair_eq}
use docker_jenkins_orchestra.Deployment.Order.{out_of_fuel}
use docker_jenkins_orchestra.Compose.Health.{duration_text}
use docker_jenkins_orchestra.Compose.Health.Parts.{duration_text-fuelled}

duration_text-fuelled_example : duration_text "1m30.5s" ≢ out_of_fuel
duration_text-fuelled_example = duration_text-fuelled "1m30.5s"

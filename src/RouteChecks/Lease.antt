-- ===== src/RouteChecks/Lease.antt =====
-- `_lease` of orchestrator/route_checks.py: taking, renewing and guarding the lease of a static
-- check, and `recover`.
use docker_jenkins_orchestra.Prelude.{
  ℕ, ◌+◌, String, Bool, true, false, not, ◌&&◌, ◌||◌, Option, none, some, List, [], ◌∷◌, ltb,
  if◌then◌else◌, ◌==◌, nat_eq, string_eq, is_some, option_eq, pair_eq,
}
use docker_jenkins_orchestra.Models.RouteCheck.{RouteCheckResult, StaticStatus, static_status_eq}
use docker_jenkins_orchestra.Repository.RouteChecks.{
  CheckField, CheckExpectation, update_route_check,
}
use docker_jenkins_orchestra.RouteChecks.{stored_check}
use docker_jenkins_orchestra.RouteChecks.Submit.{is_pending}
use docker_jenkins_orchestra.World.{
  Action, Error, Task, pure, raise, utc_now, uuid4, dispatch, ◌>>=◌,
}

-- whether another run holds the check: its status is running, and its lease ends later than now
abbrev pub still_leased : StaticStatus → Option ℕ → Action Bool
still_leased StaticStatus.running (some expires_at) = do now ← utc_now; pure (ltb now expires_at)
still_leased _ _ = pure false

-- the update that takes the lease
unfoldable pub take_check : ℕ → RouteCheckResult → Action (Option RouteCheckResult)
take_check seconds check = do
  token ← uuid4
  now ← utc_now
  updated_at ← utc_now
  update_route_check check.check_id
      (CheckField.static_status StaticStatus.running
        ∷ CheckField.static_run_token (some token)
        ∷ CheckField.static_lease_expires_at (some (now + seconds))
        ∷ CheckField.updated_at updated_at
        ∷ [])
      (CheckExpectation.generation_is check.generation
        ∷ CheckExpectation.static_status_is check.static_status
        ∷ CheckExpectation.static_run_token_is check.static_run_token
        ∷ CheckExpectation.static_lease_expires_at_is check.static_lease_expires_at
        ∷ [])

-- the check with the lease, or `none` where another run has it
unfoldable pub claim_check : ℕ → RouteCheckResult → Action (Option RouteCheckResult)
claim_check seconds check =
    if is_pending check.static_status
    then (do
      held ← still_leased check.static_status check.static_lease_expires_at
      if held then pure none else take_check seconds check)
    else pure none

-- one turn of the heartbeat: whether the lease is lost
unfoldable pub renew_check : ℕ → RouteCheckResult → Action Bool
renew_check seconds owned = do
  now ← utc_now
  updated ←
      update_route_check owned.check_id
        (CheckField.static_lease_expires_at (some (now + seconds)) ∷ [])
        (CheckExpectation.generation_is owned.generation
          ∷ CheckExpectation.static_run_token_is owned.static_run_token
          ∷ CheckExpectation.static_status_is StaticStatus.running
          ∷ [])
  pure (not (is_some updated))

-- `guard`, where `lost` says that the heartbeat has lost the lease
unfoldable pub guard_check : Bool → RouteCheckResult → Action (Unit {0})
guard_check lost owned = do
  current ← stored_check owned.check_id
  if lost
        || not (
            current.generation == owned.generation
            && current.static_run_token == owned.static_run_token)
      then raise (Error.route_check_conflict "Static check was superseded")
      else pure tt

abbrev pub count_sent : ℕ → Option String → ℕ
count_sent count none = count
count_sent count (some task_id) = count + 1

-- the loop of `recover` over the pending checks; a message that the broker refuses is left out
unfoldable pub schedule_pending : ℕ → List RouteCheckResult → Action ℕ
schedule_pending count [] = pure count
schedule_pending count (check ∷ checks) = do
  held ← still_leased check.static_status check.static_lease_expires_at
  elim held [
    | true ↦ schedule_pending count checks
    | false ↦ (do
      sent ← dispatch (Task.static_route_check check.check_id check.generation)
      schedule_pending (count_sent count sent) checks)
  ]

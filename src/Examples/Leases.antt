-- ===== src/Examples/Leases.antt =====
-- A lease that runs, and the calls of another worker.
use docker_jenkins_orchestra.Prelude.{
  ◌≡◌, refl, none, some, List, [], ◌∷◌, arith, eq_iff, nat_eq, string_eq, option_eq, pair_eq,
}
use docker_jenkins_orchestra.Models.Resources.{CleanupStatus}
use docker_jenkins_orchestra.Repository.State.{empty_repository}
use docker_jenkins_orchestra.Prelude.Dict.{lookup, insert}
use docker_jenkins_orchestra.Repository.Resources.{
  claim_build_lease, release_build_lease, update_build_resources, ManifestField,
}
use docker_jenkins_orchestra.Repository.Resources.Lease.{lease_of, claim_refused_while_held, Held}
use docker_jenkins_orchestra.Repository.Resources.Exclusion.{
  Call, Early, perform, perform_all, perform_all-Held,
}
use docker_jenkins_orchestra.World.{World, ok, ◌>>=◌}
use docker_jenkins_orchestra.Examples.{a_manifest, a_world}

abbrev w : World
w = a_world (record empty_repository {
  build_resources = ("b1", a_manifest "b1" (some "one") (some 5000)) ∷ [];
})

abbrev calls : List (Call "b1" "one" 5000)
calls =
    Call.claim "b1" "two" 9000 (CleanupStatus.running ∷ [])
    ∷ Call.release "b1" "two"
    ∷ Call.update "b1" (ManifestField.last_error (some "late") ∷ []) []
    ∷ []

held : lease_of "b1" w.repository ≡ some (some "one", some 5000)
unfolding lookup
held = refl

early : Early "b1" "one" 5000 calls w
unfolding perform claim_build_lease release_build_lease update_build_resources ◌>>=◌ lookup insert
early =
    (tt, omega arith, ((λ e. cc ((eq_iff "two" "one").1 e)), omega arith, (tt, omega arith, tt)))

perform_all-Held_example : Held "b1" "one" 5000 (perform_all "b1" "one" 5000 calls w).repository
perform_all-Held_example = perform_all-Held "b1" "one" 5000 calls w early held

claim_refused_while_held_example :
    ((claim_build_lease "b1" "two" 9000 (CleanupStatus.running ∷ []) w).0 ≡ ok none)
    × ((claim_build_lease "b1" "two" 9000 (CleanupStatus.running ∷ []) w).1.repository
        ≡ w.repository)
claim_refused_while_held_example =
    claim_refused_while_held "b1" "one" 5000 "two" 9000 (CleanupStatus.running ∷ []) w held
      (omega arith)

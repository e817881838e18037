-- ===== src/Examples/Ports.antt =====
-- A reserved port, and the calls of another build.
use docker_jenkins_orchestra.Prelude.{
  String, ◌≡◌, refl, true, List, [], ◌∷◌, eq_iff, nat_eq, string_eq, option_eq, pair_eq,
}
use docker_jenkins_orchestra.Prelude.Dict.{lookup}
use docker_jenkins_orchestra.Repository.State.{empty_repository}
use docker_jenkins_orchestra.Repository.Ports.{reserve_port}
use docker_jenkins_orchestra.Repository.Ports.Ownership.{
  PortCall, reserve, release, perform_all, NotReleasedBy, Owns, same_owner, reserve_port-exclusive,
}

abbrev calls : List PortCall
calls = release "swarm" "tcp" 30000 "b2" ∷ reserve "swarm" "tcp" 30000 "b2" "web:0:80:ingress" ∷ []

granted : (reserve_port "swarm" "tcp" 30000 "b1" "api:0:80:ingress" empty_repository).1 ≡ true
unfolding reserve_port lookup
granted = refl

by_other : NotReleasedBy "b1" calls
by_other = (λ e. cc ((eq_iff "b2" "b1").1 e), tt)

reserve_port-exclusive_example :
    let after =
      perform_all calls
        (reserve_port "swarm" "tcp" 30000 "b1" "api:0:80:ingress" empty_repository).0 in
    Owns ("b1", "api:0:80:ingress") ("swarm", ("tcp", 30000)) after
    × ((b s : String)
        → (reserve_port "swarm" "tcp" 30000 b s after).1
          ≡ same_owner ("b1", "api:0:80:ingress") (b, s))
reserve_port-exclusive_example =
    reserve_port-exclusive "swarm" "tcp" 30000 "b1" "api:0:80:ingress" calls empty_repository
      granted by_other

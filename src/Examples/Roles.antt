-- ===== src/Examples/Roles.antt =====
-- Two writers of one agent role.
use docker_jenkins_orchestra.Prelude.{
  ℕ, String, ◌≡◌, refl, none, some, [], ◌∷◌, arith, nat_eq, string_eq, option_eq, pair_eq,
}
use docker_jenkins_orchestra.Prelude.Dict.{lookup}
use docker_jenkins_orchestra.Models.Value.{null}
use docker_jenkins_orchestra.Models.App.{AgentRole}
use docker_jenkins_orchestra.Repository.State.{Repository, empty_repository}
use docker_jenkins_orchestra.Repository.Roles.{
  get_agent_role, save_agent_role, save_agent_role_wins,
}

abbrev pub a_role : String → ℕ → AgentRole
a_role prompt version = record {
  role_key = "static_route_check";
  prompt = prompt;
  output_schema = null;
  runtime_config = null;
  agent_role_version = version;
  created_at = 0;
  updated_at = 0;
}

abbrev r : Repository
r = record empty_repository { agent_roles = ("static_route_check", a_role "old" 1) ∷ [] }

won : (save_agent_role (a_role "first" 2) (some 1) r).1 ≡ some (a_role "first" 2)
unfolding save_agent_role lookup
won = refl

save_agent_role_wins_example :
    let after = (save_agent_role (a_role "first" 2) (some 1) r).0 in
    (save_agent_role (a_role "second" 2) (some 1) after ≡ (after, none))
    × (get_agent_role "static_route_check" after ≡ some (a_role "first" 2))
save_agent_role_wins_example =
    save_agent_role_wins (a_role "first" 2) (a_role "second" 2) 1 r refl (omega arith) won

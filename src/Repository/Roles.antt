-- ===== src/Repository/Roles.antt =====
-- The agent roles of `InMemoryRepository`, which are written by a compare-and-swap on their version.
use docker_jenkins_orchestra.Prelude.{
  ℕ, String, ◌≡◌, sym, ap, ◌∙◌, ◌≢◌, inl, inr, Bool, false, Option, none, some, arith,
  if◌then◌else◌, nat_beq_iff, ◌==◌, nat_eq, string_eq, Bool-cases, ==-refl, option_eq, pair_eq,
}
use docker_jenkins_orchestra.Prelude.Dict.{lookup, insert, lookup-insert}
use docker_jenkins_orchestra.Models.App.{AgentRole}
use docker_jenkins_orchestra.Repository.State.{Repository}

unfoldable pub get_agent_role : String → Repository → Option AgentRole
get_agent_role role_key r = lookup role_key r.agent_roles

abbrev pub store_role : AgentRole → Repository → Repository × Option AgentRole
store_role role r = (record r { agent_roles = insert role.role_key role r.agent_roles }, some role)

abbrev pub at_version : ℕ → Option AgentRole → Bool
at_version version none = false
at_version version (some current) = current.agent_role_version == version

-- Without an expected version only a new role is stored; with one, only over that version.
abbrev pub save_over :
    AgentRole → Option ℕ → Option AgentRole → Repository → Repository × Option AgentRole
save_over role none (some current) r = (r, some current)
save_over role none none r = store_role role r
save_over role (some version) current r =
    if at_version version current then store_role role r else (r, none)

unfoldable pub save_agent_role : AgentRole → Option ℕ → Repository → Repository × Option AgentRole
save_agent_role role expected r = save_over role expected (lookup role.role_key r.agent_roles) r

-- a save that is granted has stored the role
granted :
    (role : AgentRole) (version : ℕ) (r : Repository)
    → (save_agent_role role (some version) r).1 ≡ some role
    → lookup role.role_key (save_agent_role role (some version) r).0.agent_roles ≡ some role
unfolding save_agent_role
granted role version r h =
    elim (Bool-cases (at_version version (lookup role.role_key r.agent_roles))) [
      | inl met ↦ rw met (rw lookup-insert (rw (==-refl role.role_key)))
      | inr stale ↦ let bad : none ≡ some role = rw stale at h in cc bad
    ]

-- Of two writers that read one version of a role, the first to save a new version wins: the save of
-- the second is refused, changes nothing, and the role of the first is what is read afterwards.
pub save_agent_role_wins :
    (first second : AgentRole) (version : ℕ) (r : Repository)
    → first.role_key ≡ second.role_key
    → first.agent_role_version ≢ version
    → (save_agent_role first (some version) r).1 ≡ some first
    → let after = (save_agent_role first (some version) r).0 in
      (save_agent_role second (some version) after ≡ (after, none))
      × (get_agent_role second.role_key after ≡ some first)
unfolding save_agent_role get_agent_role
save_agent_role_wins first second version r same newer won =
    let after = (save_agent_role first (some version) r).0 in
    let held : lookup second.role_key after.agent_roles ≡ some first =
      ap (λ (k : String). lookup k after.agent_roles) (sym same) ∙ granted first version r won in
    let stale : at_version version (lookup second.role_key after.agent_roles) ≡ false =
      ap (at_version version) held ∙ not_at in
    (ap (λ (b : Bool). if b then store_role second after else (after, none)) stale, held)
  where
    not_at : (first.agent_role_version == version) ≡ false
    not_at = ground (arith, nat_beq_iff first.agent_role_version version)

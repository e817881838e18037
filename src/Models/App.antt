-- ===== src/Models/App.antt =====
-- The stored application, the deployed services and the agent roles.
use docker_jenkins_orchestra.Prelude.{ℕ, String, Option, List}
use docker_jenkins_orchestra.Models.Value.{Value}

pub record UserAppRecord : Type 0 where
  pub appid : String
  pub name : String
  pub repository_url : String
  pub git_ref : String
  pub environment_ciphertext : String
  pub environment_keys : List String
  pub compose : Option Value
  pub compose_source_file : Option String
  pub compose_source_commit : Option String
  pub components : List String
  pub require_route : Option String
  pub created_at : ℕ
  pub updated_at : ℕ

pub record AgentRole : Type 0 where
  pub role_key : String
  pub prompt : String
  pub output_schema : Value
  pub runtime_config : Value
  pub agent_role_version : ℕ
  pub created_at : ℕ
  pub updated_at : ℕ

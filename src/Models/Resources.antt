-- ===== src/Models/Resources.antt =====
-- The manifest of the external resources that one build owns.
use docker_jenkins_orchestra.Prelude.{ℕ, String, Bool, true, ◌≡◌, ◌↔◌, Option, arith, Eq, nat_beq}
use docker_jenkins_orchestra.Prelude.Dict.{Dict}
use docker_jenkins_orchestra.Models.Value.{Value}

pub data CleanupStatus : Type 0 where
  not_started queued running succeeded partial_failed : CleanupStatus

abbrev pub cleanup_index : CleanupStatus → ℕ
cleanup_index not_started = 0
cleanup_index queued = 1
cleanup_index running = 2
cleanup_index succeeded = 3
cleanup_index partial_failed = 4

pub cleanup_index_iff :
    (a b : CleanupStatus) → (nat_beq (cleanup_index a) (cleanup_index b) ≡ true) ↔ (a ≡ b)
cleanup_index_iff a b = (λ h. ground arith, λ h. ground arith)

instance abbrev pub cleanup_status_eq : Eq CleanupStatus
cleanup_status_eq = record {
  beq = λ a b. nat_beq (cleanup_index a) (cleanup_index b);
  beq_iff = cleanup_index_iff;
}

pub data ResourceState : Type 0 where
  planned present removed blocked error : ResourceState

pub data ResourceKind : Type 0 where
  service container network volume workspace runtime_directory : ResourceKind
  local_image registry_image port builder_cache : ResourceKind

pub record BuildResource : Type 0 where
  pub key : String
  pub kind : ResourceKind
  pub name : String
  pub target : String
  pub native_id : Option String
  pub managed : Bool
  pub state : ResourceState
  pub metadata : Dict String Value
  pub error : Option String
  pub created_at : ℕ
  pub updated_at : ℕ

pub record BuildResources : Type 0 where
  pub build_id : String
  pub appid : String
  pub ownership_version : ℕ
  pub namespace : Option String
  pub repository_url : Option String
  pub environment_ciphertext : Option String
  pub jenkins_trigger_pending : Bool
  pub resources : Dict String BuildResource
  pub cleanup_status : CleanupStatus
  pub cleanup_generation : ℕ
  pub lease_owner : Option String
  pub lease_expires_at : Option ℕ
  pub cleanup_requested_at : Option ℕ
  pub started_at : Option ℕ
  pub finished_at : Option ℕ
  pub last_error : Option String
  pub registry_storage_status : String
  pub updated_at : ℕ

-- ===== src/Registry/Types.antt =====
-- The data of the autoscaler's registry (services/autoscaler/pkg/types/instance.go and
-- services/autoscaler/pkg/registry/registry.go). A pointer to an instance is its number in a store.
use true_now.Base.{ℕ, ◌*◌, String, Bool, true, ◌==◌, ◌||◌, string_eq, ◌&&◌, not, eqb, leb}
use true_now.Base.Word.{Word, second}
use true_now.Base.Map.{Map}

-- The statuses are texts; these are the named ones.
abbrev pub InstanceStatus : Type 0
InstanceStatus = String

abbrev pub status_running : InstanceStatus
status_running = "running"

abbrev pub status_unhealthy : InstanceStatus
status_unhealthy = "unhealthy"

abbrev pub status_stopped : InstanceStatus
status_stopped = "stopped"

abbrev pub status_failed : InstanceStatus
status_failed = "failed"

-- `F` stands for float64.
pub record Instance (F : Type 0) : Type 0 where
  pub id : String
  pub service_name : String
  pub host : String
  pub port : Word
  pub status : InstanceStatus
  pub start_time : Word
  pub last_health_check : Word
  pub metrics : Map String F
  pub pid : Word
  pub labels : Map String String

unfoldable pub is_healthy : {F : Type 0} → Instance F → Bool
is_healthy i = i.status == status_running

unfoldable pub is_terminal : {F : Type 0} → Instance F → Bool
is_terminal i = i.status == status_stopped || i.status == status_failed

pub data EventType : Type 0 where
  registered : EventType
  deregistered : EventType
  updated : EventType
  status_change : EventType

pub record RegistryEvent : Type 0 where
  pub type : EventType
  pub instance_at : ℕ
  pub old_status : InstanceStatus
  pub new_status : InstanceStatus
  pub timestamp : Word
  pub service_name : String

pub record RegistryConfig : Type 0 where
  pub ttl : Word
  pub health_check_interval : Word
  pub health_check_timeout : Word
  pub max_retries : Word
  pub enable_watching : Bool
  pub cleanup_interval : Word

abbrev pub default_registry_config : RegistryConfig
default_registry_config = record {
  ttl = 30 * second;
  health_check_interval = 10 * second;
  health_check_timeout = 5 * second;
  max_retries = 3;
  enable_watching = true;
  cleanup_interval = 60 * second;
}

-- The state of a service, without the times of its scaling.
pub record ServiceState (F : Type 0) : Type 0 where
  pub service_name : String
  pub current_instances : ℕ
  pub healthy_instances : ℕ
  pub target_instances : ℕ
  pub instances : Map String (Instance F)
  pub in_cooldown : Bool
  pub is_scaling : Bool
  pub current_metrics : Map String F

unfoldable pub needs_scaling : {F : Type 0} → ServiceState F → Bool
needs_scaling s =
    not (eqb s.current_instances s.target_instances) && not s.is_scaling && not s.in_cooldown

unfoldable pub is_max_scale : {F : Type 0} → ℕ → ServiceState F → Bool
is_max_scale max_instances s = leb max_instances s.current_instances

unfoldable pub is_min_scale : {F : Type 0} → ℕ → ServiceState F → Bool
is_min_scale min_instances s = leb s.current_instances min_instances

-- ===== src/Registry/State.antt =====
-- The state of the registry: the store, the instances by identifier, the index of them by service,
-- and the watchers.
use true_now.Base.{
  ℕ, String, Bool, false, Option, none, some, List, [], if◌then◌else◌, eqb, ◌==◌, nat_eq, string_eq,
  length,
}
use true_now.Base.Word.{Word}
use true_now.Base.Map.{Map, lookup, insert, delete}
use true_now.Registry.Types.{InstanceStatus, Instance, EventType, RegistryEvent, RegistryConfig}
use true_now.Registry.Watchers.{Channels, send}

pub data RegistryErr : Type 0 where
  nil_instance : RegistryErr
  id_required : RegistryErr
  service_name_required : RegistryErr
  invalid_instance : RegistryErr
  registry_closed : RegistryErr
  already_registered : String → RegistryErr
  instance_not_found : RegistryErr
  watching_disabled : RegistryErr

pub record InMemoryRegistry (F : Type 0) : Type 0 where
  pub store : ℕ → Instance F
  pub instances : Map String ℕ
  pub services : Map String (Map String ℕ)
  pub watchers : Map String (List ℕ)
  pub channels : Channels
  pub made : ℕ
  pub config : RegistryConfig
  pub closed : Bool

unfoldable pub new_in_memory_registry :
    {F : Type 0} → RegistryConfig → (ℕ → Instance F) → InMemoryRegistry F
new_in_memory_registry config store = record {
  store = store;
  instances = [];
  services = [];
  watchers = [];
  channels = λ w. record { ch = []; closed = false };
  made = 0;
  config = config;
  closed = false;
}

unfoldable pub write {ℓ} : {A : Type ℓ} → ℕ → A → (ℕ → A) → ℕ → A
write p a store q = if eqb p q then a else store q

unfoldable pub members : String → Map String (Map String ℕ) → Map String ℕ
members service services = elim (lookup service services) [ none ↦ [] | some m ↦ m ]

unfoldable pub add_member :
    String → String → ℕ → Map String (Map String ℕ) → Map String (Map String ℕ)
unfolding members
add_member service id p services = insert service (insert id p (members service services)) services

-- A service that has lost its last instance is dropped.
unfoldable pub remove_member :
    String → String → Map String (Map String ℕ) → Map String (Map String ℕ)
remove_member service id services = elim (lookup service services) [
  | none ↦ services
  | some m ↦
      if eqb (length (delete id m)) 0
      then delete service services
      else insert service (delete id m) services
]

abbrev pub event_of :
    EventType → ℕ → InstanceStatus → InstanceStatus → Word → String → RegistryEvent
event_of type p old new now service = record {
  type = type;
  instance_at = p;
  old_status = old;
  new_status = new;
  timestamp = now;
  service_name = service;
}

-- `none` stands for the panic of a write to the nil map of a service that has no entry.
unfoldable pub move :
    String → String → String → ℕ → Map String (Map String ℕ) → Option (Map String (Map String ℕ))
unfolding add_member remove_member
move old new id p services =
    if old == new
    then (elim (lookup new services) [
      | none ↦ none
      | some m ↦ some (insert new (insert id p m) services)
    ])
    else some (add_member new id p (remove_member old id services))

unfoldable pub send_event : {F : Type 0} → RegistryEvent → InMemoryRegistry F → InMemoryRegistry F
send_event event r = record r { channels = send event r.watchers r.channels }

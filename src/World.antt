-- ===== src/World.antt =====
-- The state of the control plane: the tables of the store, the module-level variables of
-- packages/control-plane/src/runtime/nodes.ts and wildcardProxy.ts, and the calls made so far to what lies outside.
use labforge.Base.{ℕ, String, Bool, Option, List}
use labforge.Data.{
  Tenant, Template, Launch, Instance, Node, UsageEvent, Scheme, ProvisionRequest, ProvisionResult,
  Inspection, Spec,
}
use labforge.Exec.{Error, Exec, Result}

-- How a dockerode client reaches its daemon.
pub data Client : Type 0 where
  socket : String → Client
  over_ssh : (host : String) (port : ℕ) (user : String) (key password : Option String) → Client

-- A LabRuntime: the default one, or a DockerRuntime over a client.
pub data Runtime : Type 0 where
  default_runtime : Runtime
  docker_runtime : Client → (proxy_host bind_ip : String) → Runtime

-- The methods of a LabRuntime.
pub data RuntimeOp : Type 0 where
  provision : ProvisionRequest → RuntimeOp
  is_ready : (runtime_id upstream : String) → Scheme → RuntimeOp
  destroy suspend resume restart inspect_instance : (runtime_id : String) → RuntimeOp
  destroy_volume volume_exists : (name : String) → RuntimeOp
  logs : (runtime_id : String) → (tail : ℕ) → RuntimeOp

-- A call to what lies outside the model: the clock, randomness, files, hosts and runtimes.
pub data Call : Type 0 where
  date_now : Call
  random_id : Call
  sleep : ℕ → Call
  read_file : String → Call
  on_runtime : Runtime → RuntimeOp → Call
  new_docker docker_version : Client → Call
  create_overlay : Option Node → (dir golden size : String) → Call
  remove_dir : Option Node → (dir : String) → Call
  wait_for_rdp : Option Node → (host : String) → (port timeout_ms : ℕ) → Call
  regenerate_user_mapping : Call
  load_guacamole_config : Call
  guac_connection_id : (instance_id : String) → Call

pub data RuntimeName : Type 0 where
  docker mock : RuntimeName

pub data Scheduler : Type 0 where
  spread pinned : Scheduler

-- config.ts: the settings that the modelled code reads.
pub record Config : Type 0 where
  pub runtime : RuntimeName
  pub docker_host_socket : String
  pub lab_scheduler : Scheduler
  pub node_health_stale_seconds : ℕ
  pub lab_suspend_idle_minutes : ℕ
  pub lab_hard_inactivity_days : ℕ
  pub lab_max_duration_minutes : ℕ
  pub resume_wait_timeout_seconds : ℕ
  pub jwt_issuer : String
  pub jwt_launch_ttl_seconds : ℕ
  pub jwt_session_ttl_seconds : ℕ
  pub public_api_url : String
  pub public_gateway_url : String
  pub public_lab_domain : String

-- What the program does not implement. An answer may depend on every call made before it.
pub record Env : Type 0 where
  pub config : Config
  pub unit_answer : List Call → Call → Result (Unit {0})
  pub bool_answer : List Call → Call → Result Bool
  pub num_answer : List Call → Call → ℕ
  pub text_answer : List Call → Call → Result String
  pub provision_answer : List Call → Call → Result ProvisionResult
  pub inspect_answer : List Call → Call → Result (Option Inspection)
  -- A fresh identifier (nanoid, cuid, randomBytes).
  pub fresh_answer : List Call → String
  -- `(err as Error).message`
  pub error_text : Error → String
  -- `LabTemplateSpec.safeParse` (zod)
  pub parse_spec : String → Option Spec
  -- The SHA-1 digest in hexadecimal (node:crypto).
  pub sha1_hex : String → String
  -- `toLowerCase`, by the Unicode tables.
  pub to_lower : String → String
  -- `orderBy: { name: 'asc' }` compares by the collation of the store.
  pub collate : String → String → Bool

pub record World : Type 0 where
  pub tenants : List Tenant
  pub templates : List Template
  pub launches : List Launch
  pub instances : List Instance
  pub nodes : List Node
  pub usage_events : List UsageEvent
  pub runtime_cache : List (String × Runtime)
  pub ssh_key_cache : List (String × String)
  pub rr_cursor : ℕ
  pub rr_cursors_by_pool : List (String × ℕ)
  -- `resumingNow` of wildcardProxy.ts: the instances that a background resumption is under way for.
  pub resuming_now : List String
  -- The latest call first.
  pub calls : List Call

abbrev pub M : Type 0 → Type 0
M A = Exec World A

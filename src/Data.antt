-- ===== src/Data.antt =====
-- The rows of the store and the shared types: packages/control-plane/prisma/schema.prisma (models
-- Tenant, LabTemplate, Launch, LabInstance, Node, UsageEvent), packages/shared/src/index.ts
-- (LabTemplateSpec) and packages/control-plane/src/runtime/types.ts. Times are milliseconds.
pub mod Statuses
use labforge.Base.{ℕ, String, Bool, Option, List}

-- InstanceStatus
pub data Status : Type 0 where
  pending provisioning ready idle paused terminating terminated failed : Status

pub data UsageKind : Type 0 where
  launch_created launch_redeemed instance_ready instance_idle : UsageKind
  instance_paused instance_resumed instance_terminated : UsageKind

pub record Tenant : Type 0 where
  pub id : String
  pub default_node_id : Option String

-- `spec` is the text of the JSON column.
pub record Template : Type 0 where
  pub id : String
  pub tenant_id : String
  pub name : String
  pub spec : String
  pub default_node_id : Option String
  pub allowed_node_ids : List String

-- `context` is the text of the JSON column.
pub record Launch : Type 0 where
  pub id : String
  pub tenant_id : String
  pub template_id : String
  pub user_id_hash : String
  pub user_display_name : Option String
  pub duration_minutes : ℕ
  pub return_url : Option String
  pub webhook_url : Option String
  pub context : String
  pub node_ids : List String
  pub token_jti : Option String
  pub redeemed_at : Option ℕ
  pub instance_id : Option String
  pub created_at : ℕ
  pub expires_at : ℕ

-- LabInstance
pub record Instance : Type 0 where
  pub id : String
  pub tenant_id : String
  pub template_id : String
  pub node_id : Option String
  pub status : Status
  pub is_prewarm : Bool
  pub runtime_id : Option String
  pub host_port : Option ℕ
  pub upstream : Option String
  pub subdomain : String
  pub user_id_hash : Option String
  pub last_seen_at : Option ℕ
  pub last_activity_at : Option ℕ
  pub volume_name : Option String
  pub vm_overlay_path : Option String
  pub rdp_host_port : Option ℕ
  pub guacamole_user : Option String
  pub guacamole_password : Option String
  pub suspended_at : Option ℕ
  pub created_at : ℕ
  pub expires_at : ℕ
  pub terminated_at : Option ℕ

-- `other` is a connection mode that the code does not know.
pub data ConnectionMode : Type 0 where
  local ssh other : ConnectionMode

pub record Node : Type 0 where
  pub id : String
  pub name : String
  pub is_default : Bool
  pub connection_mode : ConnectionMode
  pub ssh_host : Option String
  pub ssh_user : Option String
  pub ssh_port : Option ℕ
  pub ssh_key_path : Option String
  pub ssh_password : Option String
  pub proxy_host : String
  pub bind_ip : String
  pub capacity_max : ℕ
  pub enabled : Bool
  pub last_seen_at : Option ℕ
  pub last_error : Option String
  pub docker_version : Option String

-- The JSON payloads that the modelled code writes.
pub data Payload : Type 0 where
  no_payload from_prewarm : Payload
  termination : (delete_volume : Bool) → (prev_status : Status) → Payload
  launch_minutes : ℕ → Payload

pub record UsageEvent : Type 0 where
  pub tenant_id : String
  pub kind : UsageKind
  pub launch_id : Option String
  pub instance_id : Option String
  pub template_id : Option String
  pub user_id_hash : Option String
  pub payload : Payload
  pub occurred_at : ℕ

-- LabRuntimeKind
pub data RuntimeKind : Type 0 where
  code_server jupyter terminal linux_desktop vm : RuntimeKind

pub data Viewer : Type 0 where
  auto native_http novnc guacamole_rdp : Viewer

pub data Scheme : Type 0 where
  http https : Scheme

-- The fields of LabTemplateSpec that the orchestrator reads; the rest go to the runtime as they are.
pub record Spec : Type 0 where
  pub image : String
  pub runtime : RuntimeKind
  pub port : ℕ
  pub upstream_scheme : Scheme
  pub workspace_dir : String
  pub persist_paths : List String
  pub prewarm : ℕ
  pub vm_golden_image : Option String
  pub vm_overlay_size : String
  pub vm_storage_host_base : String
  pub viewer : Viewer
  pub rdp_username : Option String
  pub rdp_password : Option String
  pub rdp_container_port : ℕ

pub record VolumeMount : Type 0 where
  pub name : String
  pub container_path : String

pub record HostBindMount : Type 0 where
  pub host_path : String
  pub container_path : String
  pub read_only : Bool

pub record ProvisionRequest : Type 0 where
  pub instance_id : String
  pub subdomain : String
  pub spec : Spec
  pub user_id_hash : Option String
  pub volumes : List VolumeMount
  pub bind_mounts : Option (List HostBindMount)
  pub extra_port_bindings : Option (List ℕ)
  pub label_tenant : String
  pub label_template : String

-- `extra_host_ports` maps a container port to its host port.
pub record ProvisionResult : Type 0 where
  pub runtime_id : String
  pub upstream : String
  pub host_port : Option ℕ
  pub extra_host_ports : Option (ℕ → Option ℕ)

-- What `inspectInstance` reports; the keys `<port>/tcp` of `allHostPorts` are the ports.
pub record Inspection : Type 0 where
  pub running : Bool
  pub host_port : Option ℕ
  pub upstream : Option String
  pub all_host_ports : Option (ℕ → Option ℕ)

-- ===== src/Tests.antt =====
-- A small fleet, for the examples: one template, two nodes, two warm spares and one lab whose time is up.
pub mod Labs
pub mod Fleet
pub mod Sessions
pub mod Tokens
pub mod Fields
pub mod Quotes
pub mod Batches
use mathlib.Core.Bool.{false≢true}
use labforge.Base.{
  ℕ, ◌+◌, ◌≤◌, String, ◌≡◌, ◌≢◌, refl, Bool, true, false, Option, none, some, List, [], ◌∷◌, eq_iff,
  sym, ◌∙◌, ◌==◌,
}
use labforge.Exec.{Result, ok}
use labforge.Data.{
  Spec, Template, Instance, Status, ready, Node, local, ssh, terminal, auto, http, ProvisionResult,
}
use labforge.World.{
  Call, date_now, sleep, Config, Env, World, docker, mock, spread, RuntimeName, Scheduler,
}
use labforge.Frame.Keys.{IsKeyed}

abbrev pub a_spec : Spec
a_spec = record {
  image = "labs/shell";
  runtime = terminal;
  port = 7681;
  upstream_scheme = http;
  workspace_dir = "/home/lab";
  persist_paths = [];
  prewarm = 2;
  vm_golden_image = none;
  vm_overlay_size = "20G";
  vm_storage_host_base = "/var/lib/labs";
  viewer = auto;
  rdp_username = none;
  rdp_password = none;
  rdp_container_port = 3389;
}

abbrev pub a_template : Template
a_template = record {
  id = "shell";
  tenant_id = "acme";
  name = "Shell";
  spec = "{}";
  default_node_id = none;
  allowed_node_ids = "n2" ∷ [];
}

abbrev pub a_node : String → ℕ → Node
a_node id cap = record {
  id = id;
  name = id;
  is_default = false;
  connection_mode = local;
  ssh_host = none;
  ssh_user = none;
  ssh_port = none;
  ssh_key_path = none;
  ssh_password = none;
  proxy_host = "127.0.0.1";
  bind_ip = "127.0.0.1";
  capacity_max = cap;
  enabled = true;
  last_seen_at = none;
  last_error = none;
  docker_version = none;
}

abbrev pub an_instance : String → Bool → Option String → ℕ → Instance
an_instance id warm user expires_at = record {
  id = id;
  tenant_id = "acme";
  template_id = "shell";
  node_id = some "n1";
  status = ready;
  is_prewarm = warm;
  runtime_id = some id;
  host_port = some 32768;
  upstream = some "127.0.0.1:32768";
  subdomain = id;
  user_id_hash = user;
  last_seen_at = none;
  last_activity_at = none;
  volume_name = none;
  vm_overlay_path = none;
  rdp_host_port = none;
  guacamole_user = none;
  guacamole_password = none;
  suspended_at = none;
  created_at = 0;
  expires_at = expires_at;
  terminated_at = none;
}

abbrev pub first_spare : Instance
first_spare = an_instance "i1" true none 9000000

abbrev pub second_spare : Instance
second_spare = an_instance "i2" true none 9000000

abbrev pub old_lab : Instance
old_lab = an_instance "i3" false (some "ann") 1000

abbrev pub live_lab : Instance
live_lab = an_instance "i4" false (some "bob") 9000000

-- A clock that only sleeping moves.
abbrev pub clock : List Call → ℕ
clock [] = 5000000
clock (sleep n ∷ cs) = n + clock cs
clock (c ∷ cs) = clock cs

abbrev pub a_config : Config
a_config = record {
  runtime = mock;
  docker_host_socket = "/var/run/docker.sock";
  lab_scheduler = spread;
  node_health_stale_seconds = 120;
  lab_suspend_idle_minutes = 600;
  lab_hard_inactivity_days = 7;
  lab_max_duration_minutes = 525600;
  resume_wait_timeout_seconds = 30;
  jwt_issuer = "labforge";
  jwt_launch_ttl_seconds = 60;
  jwt_session_ttl_seconds = 14400;
  public_api_url = "https://api.example.com";
  public_gateway_url = "https://example.com";
  public_lab_domain = "lab.example.com";
}

abbrev pub an_env : Env
an_env = record {
  config = a_config;
  unit_answer = λ cs c. ok tt;
  bool_answer = λ cs c. ok true;
  num_answer = λ cs c. clock cs;
  text_answer = λ cs c. ok "";
  provision_answer = λ cs c. ok (record {
    runtime_id = "box";
    upstream = "127.0.0.1:32770";
    host_port = some 32770;
    extra_host_ports = none;
  });
  inspect_answer = λ cs c. ok none;
  fresh_answer = λ cs. "fresh";
  error_text = λ e. "unreachable";
  parse_spec = λ text. some a_spec;
  sha1_hex = λ text. text;
  to_lower = λ text. text;
  collate = λ a b. true;
}

abbrev pub a_world : World
a_world = record {
  tenants = [];
  templates = a_template ∷ [];
  launches = [];
  instances = first_spare ∷ second_spare ∷ old_lab ∷ live_lab ∷ [];
  nodes = a_node "n1" 1 ∷ a_node "n2" 0 ∷ [];
  usage_events = [];
  runtime_cache = [];
  ssh_key_cache = [];
  rr_cursor = 0;
  rr_cursors_by_pool = [];
  resuming_now = [];
  calls = [];
}

differ : (a b : String) → (a == b) ≡ false → a ≢ b
differ a b h e = false≢true (sym h ∙ (eq_iff a b).1 e)

pub a_world-IsKeyed : IsKeyed a_world.instances
a_world-IsKeyed = (
  (differ "i2" "i1" refl, (differ "i3" "i1" refl, (differ "i4" "i1" refl, tt))),
  ((differ "i3" "i2" refl, (differ "i4" "i2" refl, tt)), ((differ "i4" "i3" refl, tt), (tt, tt))),
)

-- The same, where instances run in Docker, on a node with no host name to reach it by.
abbrev pub docker_env : Env
docker_env = record an_env { config = record a_config { runtime = docker } }

abbrev pub cut_off : World
cut_off = record a_world { nodes = record (a_node "n1" 1) { connection_mode = ssh } ∷ [] }

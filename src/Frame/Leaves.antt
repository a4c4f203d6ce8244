-- ===== src/Frame/Leaves.antt =====
-- The operations that write no instance.
use labforge.Base.{ℕ, String, refl, Option, none, some, List, ◌≡◌, arith}
use labforge.Exec.{Result, modify, pure, ◌>>=◌}
use labforge.Exec.Moves.{Moves, Moves-try_catch, moves_rules}
use labforge.Data.{Node, UsageEvent, ConnectionMode, local, ssh, other}
use labforge.World.{World, Env, Call, Client, Runtime, RuntimeName, docker, mock}
use labforge.Store.{
  ask, now, fresh, find_node, find_template, find_tenant, find_instance, emit_usage,
}
use labforge.Frame.Rows.{same_rows}
use labforge.Guacamole.{regenerate_mapping}
use labforge.Nodes.Runtimes.{
  read_key, ssh_key, ssh_client, mode_client, build_docker_client, build_runtime, runtime_under,
  get_node_runtime, truthy, remember_key, remember_runtime, construct,
}
use labforge.Nodes.Pick.{set_cursor}
use labforge.Orchestrator.Hosts.{runtime_at, runtime_for, runtime_of_node, rm_overlay_dir}

pub ask-rows : {A : Type 0} (f : List Call → Call → Result A) (c : Call) → Moves same_rows (ask f c)
unfolding ask
ask-rows f c = record { at = λ s. refl }

-- A change of the state that keeps the table.
pub modify-rows :
    (f : World → World) → ((s : World) → (f s).instances ≡ s.instances) → Moves same_rows (modify f)
unfolding modify
modify-rows f h = record { at = h }

pub now-rows : (env : Env) → Moves same_rows (now env)
unfolding now
now-rows env = record { at = λ s. refl }

pub fresh-rows : (env : Env) → Moves same_rows (fresh env)
unfolding fresh
fresh-rows env = record { at = λ s. refl }

pub emit_usage-rows : (env : Env) (e : ℕ → UsageEvent) → Moves same_rows (emit_usage env e)
unfolding emit_usage
emit_usage-rows env e = record { at = λ s. refl }

pub find_node-rows : (id : String) → Moves same_rows (find_node id)
unfolding find_node
find_node-rows id = search moves_rules

pub find_template-rows : (id : String) → Moves same_rows (find_template id)
unfolding find_template
find_template-rows id = search moves_rules

pub find_tenant-rows : (id : String) → Moves same_rows (find_tenant id)
unfolding find_tenant
find_tenant-rows id = search moves_rules

pub find_instance-rows : (id : String) → Moves same_rows (find_instance id)
unfolding find_instance
find_instance-rows id = search moves_rules

remember_key-rows : (path key : String) → Moves same_rows (modify (remember_key path key))
remember_key-rows path key = modify-rows _ (λ s. refl)

remember_runtime-rows :
    (key : String) (rt : Runtime) → Moves same_rows (modify (remember_runtime key rt))
remember_runtime-rows key rt = modify-rows _ (λ s. refl)

pub construct-rows : (c : Client) → Moves same_rows (construct c)
unfolding construct modify ◌>>=◌ pure
construct-rows c = record { at = λ s. refl }

pub set_cursor-rows : (key : String) (next : ℕ) → Moves same_rows (modify (set_cursor key next))
unfolding set_cursor
set_cursor-rows key next = modify-rows _ (λ s. ground arith)

pub ruleset leaf_rules = (
  moves_rules, ask-rows, now-rows, fresh-rows, emit_usage-rows, find_node-rows, find_template-rows,
  find_tenant-rows, find_instance-rows, construct-rows,
)

module _ (env : Env) where
  read_key-rows :
      (path : String) (e : Option (String × String)) → Moves same_rows (read_key env path e)
  unfolding read_key
  read_key-rows path (some e) = search leaf_rules
  read_key-rows path none = search (leaf_rules, remember_key-rows)

  ssh_key-rows : (path : Option String) → Moves same_rows (ssh_key env path)
  unfolding ssh_key
  ssh_key-rows none = search leaf_rules
  ssh_key-rows (some path) = search (leaf_rules, read_key-rows)

  ssh_client-rows :
      (n : Node) (host path password : Option String)
      → Moves same_rows (ssh_client env n host path password)
  unfolding ssh_client
  ssh_client-rows n none path password = search leaf_rules
  ssh_client-rows n (some host) none none = search leaf_rules
  ssh_client-rows n (some host) (some path) password = search (leaf_rules, ssh_key-rows)
  ssh_client-rows n (some host) none (some password) = search leaf_rules

  mode_client-rows : (n : Node) (mode : ConnectionMode) → Moves same_rows (mode_client env n mode)
  unfolding mode_client
  mode_client-rows n local = search leaf_rules
  mode_client-rows n ssh = ssh_client-rows n _ _ _
  mode_client-rows n other = search leaf_rules

  pub build_docker_client-rows : (n : Option Node) → Moves same_rows (build_docker_client env n)
  unfolding build_docker_client
  build_docker_client-rows none = search leaf_rules
  build_docker_client-rows (some n) = mode_client-rows n n.connection_mode

  build_runtime-rows :
      (n : Option Node) (e : Option (String × Runtime)) → Moves same_rows (build_runtime env n e)
  unfolding build_runtime
  build_runtime-rows n (some e) = search leaf_rules
  build_runtime-rows n none = search (leaf_rules, build_docker_client-rows, remember_runtime-rows)

  runtime_under-rows : (r : RuntimeName) (n : Option Node) → Moves same_rows (runtime_under r env n)
  unfolding runtime_under
  runtime_under-rows mock n = search leaf_rules
  runtime_under-rows docker n = search (leaf_rules, build_runtime-rows)

  pub get_node_runtime-rows : (n : Option Node) → Moves same_rows (get_node_runtime env n)
  unfolding get_node_runtime
  get_node_runtime-rows n = runtime_under-rows env.config.runtime n

  runtime_at-rows : (id : Option String) → Moves same_rows (runtime_at env id)
  unfolding runtime_at
  runtime_at-rows none = search leaf_rules
  runtime_at-rows (some id) = search (leaf_rules, get_node_runtime-rows)

  pub runtime_for-rows : (id : Option String) → Moves same_rows (runtime_for env id)
  unfolding runtime_for
  runtime_for-rows id = runtime_at-rows (truthy id)

  pub runtime_of_node-rows : (n : Option Node) → Moves same_rows (runtime_of_node env n)
  unfolding runtime_of_node
  runtime_of_node-rows none = search leaf_rules
  runtime_of_node-rows (some n) = get_node_runtime-rows (some n)

  pub rm_overlay_dir-rows :
      (n : Option Node) (dir : String) → Moves same_rows (rm_overlay_dir env n dir)
  unfolding rm_overlay_dir
  rm_overlay_dir-rows n dir = search leaf_rules

  pub regenerate_mapping-rows : Moves same_rows (regenerate_mapping env)
  unfolding regenerate_mapping
  regenerate_mapping-rows = search leaf_rules

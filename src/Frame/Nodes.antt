-- ===== src/Frame/Nodes.antt =====
-- The operations that write no node.
use labforge.Base.{String, ◌≡◌, refl, ◌∙◌, Bool, true, false, Option, none, some, List, ℕ}
use labforge.Exec.{Result, modify, pure, ◌>>=◌}
use labforge.Exec.Moves.{Guarantee, Moves, moves_rules}
use labforge.Data.{Node, Instance, UsageEvent, ConnectionMode, local, ssh, other}
use labforge.World.{World, Env, Call, Client, Runtime, RuntimeName, docker, mock}
use labforge.Table.{lookup}
use labforge.Store.{
  ask, now, find_node, find_instance, emit_usage, instance_key, put_instance, update_instance,
}
use labforge.Guacamole.{clear_guacamole_credentials, regenerate_mapping}
use labforge.Nodes.Runtimes.{
  read_key, ssh_key, ssh_client, mode_client, build_docker_client, build_runtime, runtime_under,
  get_node_runtime, truthy, remember_key, remember_runtime, construct,
}
use labforge.Orchestrator.Hosts.{runtime_at, runtime_for, rm_overlay_dir}
use labforge.Orchestrator.Destroy.{
  best_effort, destroy_container, drop_volume, drop_overlay, drop_guacamole, tear_down,
  mark_terminated, destroy_row, destroy_instance,
}

-- No node is written.
abbrev pub same_nodes : Guarantee World
same_nodes = record { rel = λ s t. t.nodes ≡ s.nodes; stay = λ s. refl; chain = λ s t u p q. q ∙ p }

pub ask-nodes :
    {A : Type 0} (f : List Call → Call → Result A) (c : Call) → Moves same_nodes (ask f c)
unfolding ask
ask-nodes f c = record { at = λ s. refl }

pub now-nodes : (env : Env) → Moves same_nodes (now env)
unfolding now
now-nodes env = record { at = λ s. refl }

pub emit_usage-nodes : (env : Env) (e : ℕ → UsageEvent) → Moves same_nodes (emit_usage env e)
unfolding emit_usage
emit_usage-nodes env e = record { at = λ s. refl }

pub find_node-nodes : (id : String) → Moves same_nodes (find_node id)
unfolding find_node
find_node-nodes id = search moves_rules

pub find_instance-nodes : (id : String) → Moves same_nodes (find_instance id)
unfolding find_instance
find_instance-nodes id = search moves_rules

pub remember_key-nodes : (path key : String) → Moves same_nodes (modify (remember_key path key))
unfolding modify
remember_key-nodes path key = record { at = λ s. refl }

pub remember_runtime-nodes :
    (key : String) (rt : Runtime) → Moves same_nodes (modify (remember_runtime key rt))
unfolding modify
remember_runtime-nodes key rt = record { at = λ s. refl }

pub construct-nodes : (c : Client) → Moves same_nodes (construct c)
unfolding construct modify ◌>>=◌ pure
construct-nodes c = record { at = λ s. refl }

put_instance-nodes :
    (id : String) (f : Instance → Instance) (o : Option Instance) (s : World)
    → (put_instance id f o s).1.nodes ≡ s.nodes
unfolding put_instance
put_instance-nodes id f none s = refl
put_instance-nodes id f (some r) s = refl

pub update_instance-nodes :
    (id : String) (f : Instance → Instance) → Moves same_nodes (update_instance id f)
unfolding update_instance
update_instance-nodes id f = record {
  at = λ s. put_instance-nodes id f (lookup instance_key id s.instances) s;
}

pub ruleset node_rules = (
  moves_rules, ask-nodes, now-nodes, emit_usage-nodes, find_node-nodes, find_instance-nodes,
  remember_key-nodes, remember_runtime-nodes, construct-nodes, update_instance-nodes,
)

module _ (env : Env) where
  read_key-nodes :
      (path : String) (e : Option (String × String)) → Moves same_nodes (read_key env path e)
  unfolding read_key
  read_key-nodes path (some e) = search node_rules
  read_key-nodes path none = search node_rules

  ssh_key-nodes : (path : Option String) → Moves same_nodes (ssh_key env path)
  unfolding ssh_key
  ssh_key-nodes none = search node_rules
  ssh_key-nodes (some path) = search (node_rules, read_key-nodes)

  ssh_client-nodes :
      (n : Node) (host path password : Option String)
      → Moves same_nodes (ssh_client env n host path password)
  unfolding ssh_client
  ssh_client-nodes n none path password = search node_rules
  ssh_client-nodes n (some host) none none = search node_rules
  ssh_client-nodes n (some host) (some path) password = search (node_rules, ssh_key-nodes)
  ssh_client-nodes n (some host) none (some password) = search node_rules

  mode_client-nodes : (n : Node) (mode : ConnectionMode) → Moves same_nodes (mode_client env n mode)
  unfolding mode_client
  mode_client-nodes n local = search node_rules
  mode_client-nodes n ssh = ssh_client-nodes n _ _ _
  mode_client-nodes n other = search node_rules

  pub build_docker_client-nodes : (n : Option Node) → Moves same_nodes (build_docker_client env n)
  unfolding build_docker_client
  build_docker_client-nodes none = search node_rules
  build_docker_client-nodes (some n) = mode_client-nodes n n.connection_mode

  build_runtime-nodes :
      (n : Option Node) (e : Option (String × Runtime)) → Moves same_nodes (build_runtime env n e)
  unfolding build_runtime
  build_runtime-nodes n (some e) = search node_rules
  build_runtime-nodes n none = search (node_rules, build_docker_client-nodes)

  runtime_under-nodes :
      (r : RuntimeName) (n : Option Node) → Moves same_nodes (runtime_under r env n)
  unfolding runtime_under
  runtime_under-nodes mock n = search node_rules
  runtime_under-nodes docker n = search (node_rules, build_runtime-nodes)

  get_node_runtime-nodes : (n : Option Node) → Moves same_nodes (get_node_runtime env n)
  unfolding get_node_runtime
  get_node_runtime-nodes n = runtime_under-nodes env.config.runtime n

  runtime_at-nodes : (id : Option String) → Moves same_nodes (runtime_at env id)
  unfolding runtime_at
  runtime_at-nodes none = search node_rules
  runtime_at-nodes (some id) = search (node_rules, get_node_runtime-nodes)

  runtime_for-nodes : (id : Option String) → Moves same_nodes (runtime_for env id)
  unfolding runtime_for
  runtime_for-nodes id = runtime_at-nodes (truthy id)

  rm_overlay_dir-nodes :
      (n : Option Node) (dir : String) → Moves same_nodes (rm_overlay_dir env n dir)
  unfolding rm_overlay_dir
  rm_overlay_dir-nodes n dir = search node_rules

  regenerate_mapping-nodes : Moves same_nodes (regenerate_mapping env)
  unfolding regenerate_mapping
  regenerate_mapping-nodes = search node_rules

  clear-nodes : (id : String) → Moves same_nodes (clear_guacamole_credentials id)
  unfolding clear_guacamole_credentials
  clear-nodes id = search node_rules

  destroy_container-nodes :
      (rt : Runtime) (rid : Option String) → Moves same_nodes (destroy_container env rt rid)
  unfolding destroy_container best_effort
  destroy_container-nodes rt none = search node_rules
  destroy_container-nodes rt (some rid) = search node_rules

  drop_volume-nodes :
      (rt : Runtime) (b : Bool) (v : Option String) → Moves same_nodes (drop_volume env rt b v)
  unfolding drop_volume best_effort
  drop_volume-nodes rt true (some v) = search node_rules
  drop_volume-nodes rt true none = search node_rules
  drop_volume-nodes rt false v = search node_rules

  drop_overlay-nodes :
      (dir at_node : Option String) → Moves same_nodes (drop_overlay env dir at_node)
  unfolding drop_overlay best_effort
  drop_overlay-nodes (some dir) (some id) = search (node_rules, rm_overlay_dir-nodes)
  drop_overlay-nodes (some dir) none = search node_rules
  drop_overlay-nodes none _ = search node_rules

  drop_guacamole-nodes :
      (id : String) (user : Option String) → Moves same_nodes (drop_guacamole env id user)
  unfolding drop_guacamole best_effort
  drop_guacamole-nodes id none = search node_rules
  drop_guacamole-nodes id (some u) = search (node_rules, clear-nodes, regenerate_mapping-nodes)

  destroy_row-nodes : (b : Bool) (o : Option Instance) → Moves same_nodes (destroy_row env b o)
  unfolding destroy_row tear_down mark_terminated
  destroy_row-nodes b none = search node_rules
  destroy_row-nodes b (some i) =
      search
        (
          node_rules, runtime_for-nodes, destroy_container-nodes, drop_volume-nodes,
          drop_overlay-nodes, drop_guacamole-nodes,
        )
        depth 14

  pub destroy_instance-nodes :
      (id : String) (b : Bool) → Moves same_nodes (destroy_instance env id b)
  unfolding destroy_instance
  destroy_instance-nodes id b = search (node_rules, destroy_row-nodes)

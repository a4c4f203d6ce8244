-- ===== src/Along/Hosts.antt =====
-- The runtimes of the nodes and the choice of a node.
use labforge.Base.{ℕ, String, refl, Option, none, some, List, [], ◌∷◌, arith}
use labforge.Exec.{modify}
use labforge.Exec.Moves.{Guarantee, Moves, Moves-bind, Moves-pure}
use labforge.Data.{Node, ConnectionMode, local, ssh, other}
use labforge.World.{
  World, M, Env, Client, Runtime, RuntimeName, docker, mock, Scheduler, spread, pinned,
}
use labforge.Along.{IsClosed, modify-Along, along_rules}
use labforge.Nodes.Runtimes.{
  read_key, ssh_key, ssh_client, mode_client, build_docker_client, build_runtime, runtime_under,
  get_node_runtime, truthy, remember_key, remember_runtime, construct, log_new,
}
use labforge.Nodes.Pick.{set_cursor, take_pick, pick_ring, pick_from, pick_least_loaded_node}
use labforge.Nodes.Resolve.{
  or_try, fall_back, resolve_override, after_spread, schedule_by, schedule, use_pin, find_pin,
  resolve_pinned, resolve_over, resolve_node_for_provision, nonempty,
}
use labforge.Orchestrator.Hosts.{runtime_at, runtime_for, runtime_of_node, rm_overlay_dir}
use labforge.Orchestrator.Provision.{
  ProvisionInput, probe_holders, sticky_node, or_resolve, choose_node,
}

module _ (g : Guarantee World) (c : IsClosed g) where
  remember_key-Along : (path key : String) → Moves g (modify (remember_key path key))
  remember_key-Along path key = modify-Along g c _ (λ s. refl) (λ s. refl)

  remember_runtime-Along :
      (key : String) (rt : Runtime) → Moves g (modify (remember_runtime key rt))
  remember_runtime-Along key rt = modify-Along g c _ (λ s. refl) (λ s. refl)

  construct-Along : (x : Client) → Moves g (construct x)
  unfolding construct
  construct-Along x =
      Moves-bind _ _ (modify-Along g c (log_new x) (λ s. refl) (λ s. refl)) (λ _. Moves-pure x)

  pub set_cursor-Along : (key : String) (next : ℕ) → Moves g (modify (set_cursor key next))
  unfolding set_cursor
  set_cursor-Along key next = modify-Along g c _ (λ s. ground arith) (λ s. ground arith)

  take_pick-Along :
      (key : String) (size : ℕ) (p : Option (ℕ × Node)) → Moves g (take_pick key size p)
  unfolding take_pick
  take_pick-Along key size none = search along_rules
  take_pick-Along key size (some (idx, n)) = search (along_rules, set_cursor-Along)

  pick_ring-Along : (key : String) (ring : List Node) → Moves g (pick_ring key ring)
  unfolding pick_ring
  pick_ring-Along key ring = search (along_rules, take_pick-Along)

  pick_from-Along :
      (whitelist : List String) (ring : List Node) → Moves g (pick_from whitelist ring)
  unfolding pick_from
  pick_from-Along whitelist [] = search along_rules
  pick_from-Along whitelist (n ∷ []) = search along_rules
  pick_from-Along whitelist (n ∷ m ∷ ns) = pick_ring-Along _ _

  or_try-Along : (n : Option Node) (k : M (Option Node)) → Moves g k → Moves g (or_try n k)
  unfolding or_try
  or_try-Along none k h = h
  or_try-Along (some n) k h = search along_rules

  fall_back-Along : Moves g fall_back
  unfolding fall_back
  fall_back-Along = search (along_rules, or_try-Along)

module _ (g : Guarantee World) (c : IsClosed g) (env : Env) where
  read_key-Along : (path : String) (e : Option (String × String)) → Moves g (read_key env path e)
  unfolding read_key
  read_key-Along path (some e) = search along_rules
  read_key-Along path none = search (along_rules, remember_key-Along)

  ssh_key-Along : (path : Option String) → Moves g (ssh_key env path)
  unfolding ssh_key
  ssh_key-Along none = search along_rules
  ssh_key-Along (some path) = search (along_rules, read_key-Along)

  ssh_client-Along :
      (n : Node) (host path password : Option String)
      → Moves g (ssh_client env n host path password)
  unfolding ssh_client
  ssh_client-Along n none path password = search along_rules
  ssh_client-Along n (some host) none none = search along_rules
  ssh_client-Along n (some host) (some path) password =
      search (along_rules, ssh_key-Along, construct-Along)
  ssh_client-Along n (some host) none (some password) = search (along_rules, construct-Along)

  mode_client-Along : (n : Node) (mode : ConnectionMode) → Moves g (mode_client env n mode)
  unfolding mode_client
  mode_client-Along n local = search (along_rules, construct-Along)
  mode_client-Along n ssh = ssh_client-Along n _ _ _
  mode_client-Along n other = search along_rules

  pub build_docker_client-Along : (n : Option Node) → Moves g (build_docker_client env n)
  unfolding build_docker_client
  build_docker_client-Along none = search (along_rules, construct-Along)
  build_docker_client-Along (some n) = mode_client-Along n n.connection_mode

  build_runtime-Along :
      (n : Option Node) (e : Option (String × Runtime)) → Moves g (build_runtime env n e)
  unfolding build_runtime
  build_runtime-Along n (some e) = search along_rules
  build_runtime-Along n none =
      search (along_rules, build_docker_client-Along, remember_runtime-Along)

  runtime_under-Along : (r : RuntimeName) (n : Option Node) → Moves g (runtime_under r env n)
  unfolding runtime_under
  runtime_under-Along mock n = search along_rules
  runtime_under-Along docker n = search (along_rules, build_runtime-Along)

  pub get_node_runtime-Along : (n : Option Node) → Moves g (get_node_runtime env n)
  unfolding get_node_runtime
  get_node_runtime-Along n = runtime_under-Along env.config.runtime n

  runtime_at-Along : (id : Option String) → Moves g (runtime_at env id)
  unfolding runtime_at
  runtime_at-Along none = search along_rules
  runtime_at-Along (some id) = search (along_rules, get_node_runtime-Along)

  pub runtime_for-Along : (id : Option String) → Moves g (runtime_for env id)
  unfolding runtime_for
  runtime_for-Along id = runtime_at-Along (truthy id)

  pub runtime_of_node-Along : (n : Option Node) → Moves g (runtime_of_node env n)
  unfolding runtime_of_node
  runtime_of_node-Along none = search along_rules
  runtime_of_node-Along (some n) = get_node_runtime-Along (some n)

  pub rm_overlay_dir-Along : (n : Option Node) (dir : String) → Moves g (rm_overlay_dir env n dir)
  unfolding rm_overlay_dir
  rm_overlay_dir-Along n dir = search along_rules

  pub pick-Along : (whitelist : List String) → Moves g (pick_least_loaded_node env whitelist)
  unfolding pick_least_loaded_node
  pick-Along whitelist = search (along_rules, pick_from-Along)

  resolve_override-Along : (ids : List String) → Moves g (resolve_override env ids)
  unfolding resolve_override
  resolve_override-Along ids = search (along_rules, pick-Along, or_try-Along) depth 9

  after_spread-Along : (allowed : List String) (n : Option Node) → Moves g (after_spread allowed n)
  unfolding after_spread
  after_spread-Along allowed (some n) = search along_rules
  after_spread-Along [] none = fall_back-Along g c
  after_spread-Along (a ∷ allowed) none = search along_rules

  schedule_by-Along : (s : Scheduler) (allowed : List String) → Moves g (schedule_by s env allowed)
  unfolding schedule_by
  schedule_by-Along pinned allowed = fall_back-Along g c
  schedule_by-Along spread allowed = search (along_rules, pick-Along, after_spread-Along)

  use_pin-Along : (allowed : List String) (n : Option Node) → Moves g (use_pin env allowed n)
  unfolding use_pin schedule
  use_pin-Along allowed none = schedule_by-Along _ allowed
  use_pin-Along allowed (some n) = search along_rules

  find_pin-Along : (id : Option String) → Moves g (find_pin id)
  unfolding find_pin
  find_pin-Along none = search along_rules
  find_pin-Along (some id) = search along_rules

  resolve_over-Along :
      (tenant template : String) (ids : List String)
      → Moves g (resolve_over env tenant template ids)
  unfolding resolve_over resolve_pinned
  resolve_over-Along tenant template [] =
      search (along_rules, find_pin-Along, use_pin-Along) depth 9
  resolve_over-Along tenant template (id ∷ ids) = resolve_override-Along (id ∷ ids)

  pub resolve-Along :
      (tenant template : String) (ids : List String)
      → Moves g (resolve_node_for_provision env tenant template ids)
  unfolding resolve_node_for_provision
  resolve-Along tenant template ids = resolve_over-Along tenant template (nonempty ids)

  probe_holders-Along : (volume : String) (ns : List Node) → Moves g (probe_holders env volume ns)
  unfolding probe_holders
  probe_holders-Along volume [] = search along_rules
  probe_holders-Along volume (n ∷ ns) =
      Moves-bind _ _ (search (along_rules, get_node_runtime-Along))
        λ has. Moves-bind _ _ (probe_holders-Along volume ns) (λ rest. Moves-pure _)

  sticky_node-Along :
      (input : ProvisionInput) (volume : Option String) → Moves g (sticky_node env input volume)
  unfolding sticky_node
  sticky_node-Along input none = search along_rules
  sticky_node-Along input (some volume) = search (along_rules, probe_holders-Along)

  or_resolve-Along : (input : ProvisionInput) (n : Option Node) → Moves g (or_resolve env input n)
  unfolding or_resolve
  or_resolve-Along input (some n) = search along_rules
  or_resolve-Along input none = resolve-Along _ _ _

  pub choose_node-Along :
      (input : ProvisionInput) (volume : Option String) → Moves g (choose_node env input volume)
  unfolding choose_node
  choose_node-Along input volume = search (along_rules, sticky_node-Along, or_resolve-Along)

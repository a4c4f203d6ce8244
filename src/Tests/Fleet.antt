-- ===== src/Tests/Fleet.antt =====
-- Examples of the scheduler, the caches, the waits and the counts.
use labforge.Base.{
  ℕ, ◌+◌, ◌%◌, ◌≤◌, ◌⊎◌, ◌≡◌, refl, true, false, none, some, List, [], ◌∷◌, All, length, arith,
}
use labforge.Exec.{missing_ssh_host, no_healthy_node, ok, err, pure, raise, gets, modify, ◌>>=◌}
use labforge.Exec.Triple.{Post}
use labforge.Data.{Node, Instance, http}
use labforge.World.{World, Runtime, default_runtime, Call, sleep, docker_runtime, socket}
use labforge.Store.{node_key, instance_key, now, ask, find_node}
use labforge.Table.{lookup}
use labforge.Nodes.Runtimes.{
  construct, build_docker_client, mode_client, ssh_client, build_runtime, runtime_under,
  get_node_runtime,
}
use labforge.Nodes.Runtimes.Cache.{get_node_runtime-again}
use labforge.Nodes.Names.{wanted_names, resolve_node_names_to_ids}
use labforge.Nodes.Names.Split.{Sorted, resolve_names-Sorted}
use labforge.Nodes.Pick.{
  insert_by, sort_by, load, load_map, full, walk, join_comma, pool_key, get_cursor, set_cursor,
  pick_only, take_pick, pick_ring, pick_from, candidates, pick_least_loaded_node,
}
use labforge.Nodes.Pick.Ring.{StoppedAt}
use labforge.Nodes.Pick.Choice.{IsCandidate, cutoff}
use labforge.Nodes.Pick.Contract.{pick-IsCandidate, pick-none-full, pick_ring-turns}
use labforge.Nodes.Resolve.{
  default_node, only_enabled, or_try, resolve_override, schedule, resolve_over,
  resolve_node_for_provision,
}
use labforge.Nodes.Resolve.Enabled.{resolve-Enabled}
use labforge.Nodes.Resolve.Pool.{schedule-pool}
use labforge.Guacamole.{ensure_guacamole_credentials}
use labforge.Guacamole.Minting.{Keeps, ensure_guacamole_credentials-Keeps}
use labforge.Orchestrator.Hosts.{runtime_for, runtime_at}
use labforge.Orchestrator.Destroy.{destroy_instance}
use labforge.Orchestrator.Destroy.Outcome.{destroy_instance-unreachable}
use labforge.Orchestrator.Lifecycle.{wait_loop, wait_fuel}
use labforge.Orchestrator.Lifecycle.Waiting.{ClockRuns, Settles, wait_loop-Settles}
use labforge.NodeHealth.{poll_node}
use labforge.NodeHealth.Outcome.{Recorded, contact, poll_node-records}
use labforge.Tests.{a_node, an_env, a_world, clock, docker_env, cut_off, old_lab}

-- The first node is full, so that the second one is picked.
picks_second : (pick_least_loaded_node an_env [] a_world).0 ≡ ok (some (a_node "n2" 0))
unfolding pick_least_loaded_node now ask ◌>>=◌ candidates insert_by pick_from pick_ring gets walk
    load_map load take_pick modify pure get_cursor set_cursor pool_key
picks_second = refl

pick-IsCandidate_example :
    IsCandidate an_env [] a_world (a_node "n2" 0) × (full (load a_world) (a_node "n2" 0) ≡ false)
pick-IsCandidate_example = pick-IsCandidate an_env [] a_world (a_node "n2" 0) picks_second

picks_none : (pick_least_loaded_node an_env ("n1" ∷ []) a_world).0 ≡ ok none
unfolding pick_least_loaded_node now ask ◌>>=◌ candidates insert_by sort_by pick_from pick_only gets
    load pure
picks_none = refl

pick-none-full_example :
    All
      (λ m. full (load a_world) m ≡ true)
      (candidates an_env (cutoff an_env a_world) ("n1" ∷ []) a_world)
pick-none-full_example = pick-none-full an_env ("n1" ∷ []) a_world picks_none

abbrev ring : List Node
ring = a_node "n1" 1 ∷ a_node "n2" 0 ∷ []

ring_turns : (pick_ring "n1,n2" ring a_world).0 ≡ ok (some (a_node "n2" 0))
unfolding pick_ring gets ◌>>=◌ walk load_map load take_pick modify pure get_cursor set_cursor lookup
ring_turns = refl

pick_ring-turns_example :
    (idx : ℕ) × StoppedAt
      (load_map ring a_world)
      ring
      (get_cursor "n1,n2" a_world)
      0
      (length ring)
      idx
      (a_node "n2" 0)
    × (get_cursor "n1,n2" (pick_ring "n1,n2" ring a_world).1 ≡ (idx + 1) % length ring)
pick_ring-turns_example = pick_ring-turns "n1,n2" ring a_world (a_node "n2" 0) ring_turns

resolves :
    (resolve_node_for_provision an_env "acme" "shell" ("n1" ∷ "n2" ∷ []) a_world).0
    ≡ ok (some (a_node "n2" 0))
unfolding resolve_node_for_provision resolve_over resolve_override or_try default_node only_enabled
    pick_least_loaded_node now ask ◌>>=◌ candidates insert_by sort_by pick_from pick_ring gets walk
    load_map load take_pick modify pure get_cursor set_cursor pool_key join_comma lookup
resolves = refl

resolve-Enabled_example : (a_node "n2" 0).enabled ≡ true
resolve-Enabled_example =
    resolve-Enabled an_env "acme" "shell" ("n1" ∷ "n2" ∷ []) a_world (a_node "n2" 0) resolves

schedule-pool_example :
    ((n : Node) × ((schedule an_env ("n2" ∷ []) a_world).0 ≡ ok (some n))
      × IsCandidate an_env ("n2" ∷ []) a_world n
      × (full (load a_world) n ≡ false))
    ⊎ (((schedule an_env ("n2" ∷ []) a_world).0 ≡ err no_healthy_node)
        × All
            (λ m. full (load a_world) m ≡ true)
            (candidates an_env (cutoff an_env a_world) ("n2" ∷ []) a_world))
schedule-pool_example = schedule-pool an_env "n2" [] a_world refl

resolve_names-Sorted_example :
    Sorted an_env ring
      (wanted_names ("n2" ∷ " n3 " ∷ []))
      (resolve_node_names_to_ids an_env ring ("n2" ∷ " n3 " ∷ []))
resolve_names-Sorted_example = resolve_names-Sorted an_env ring ("n2" ∷ " n3 " ∷ []) refl

abbrev local_runtime : Runtime
local_runtime = docker_runtime (socket "/var/run/docker.sock") "127.0.0.1" "127.0.0.1"

builds : (get_node_runtime docker_env (some (a_node "n2" 0)) a_world).0 ≡ ok local_runtime
unfolding get_node_runtime runtime_under gets ◌>>=◌ lookup build_runtime build_docker_client
    mode_client construct pure modify
builds = refl

get_node_runtime-again_example :
    get_node_runtime docker_env
      (some (a_node "n2" 0))
      (get_node_runtime docker_env (some (a_node "n2" 0)) a_world).1
    ≡ (ok local_runtime, (get_node_runtime docker_env (some (a_node "n2" 0)) a_world).1)
get_node_runtime-again_example =
    get_node_runtime-again docker_env (some (a_node "n2" 0)) a_world local_runtime builds

old_row : lookup instance_key "i3" cut_off.instances ≡ some old_lab
unfolding lookup
old_row = refl

no_host : (runtime_for docker_env (some "n1") cut_off).0 ≡ err missing_ssh_host
unfolding runtime_for runtime_at find_node get_node_runtime runtime_under gets ◌>>=◌ lookup
    build_runtime build_docker_client mode_client ssh_client raise
no_host = refl

destroy_instance-unreachable_example :
    ((destroy_instance docker_env "i3" true cut_off).0 ≡ err missing_ssh_host)
    × ((destroy_instance docker_env "i3" true cut_off).1.instances ≡ cut_off.instances)
destroy_instance-unreachable_example =
    destroy_instance-unreachable docker_env "i3" true cut_off old_lab missing_ssh_host old_row
      no_host

ensure_guacamole_credentials-Keeps_example :
    Post
      (Keeps "i3")
      (λ _ _. false ≡ true)
      (ensure_guacamole_credentials docker_env "i3" cut_off).0
      (ensure_guacamole_credentials docker_env "i3" cut_off).1
ensure_guacamole_credentials-Keeps_example =
    ensure_guacamole_credentials-Keeps docker_env "i3" cut_off old_lab old_row

abbrev known_lab : Instance
known_lab = record old_lab { guacamole_user = some "lab-1"; guacamole_password = some "pw" }

abbrev known : World
known = record a_world { instances = known_lab ∷ [] }

known_row : lookup instance_key "i3" known.instances ≡ some known_lab
unfolding lookup
known_row = refl

an_env-ClockRuns : ClockRuns an_env
an_env-ClockRuns = record { forward = keeps_on; sleeps = λ n cs. omega arith }
  where
    keeps_on : (c : Call) (cs : List Call) → clock cs ≤ clock (c ∷ cs)
    keeps_on (sleep n) cs = omega arith
    keeps_on c cs = omega arith

wait_loop-Settles_example :
    Settles
      (wait_loop an_env default_runtime "i3" "127.0.0.1:32768" http
        (5000000 + 30000)
        (wait_fuel 30000)
        a_world).0
wait_loop-Settles_example =
    wait_loop-Settles an_env default_runtime "i3" "127.0.0.1:32768" http 30000 a_world a_world
      an_env-ClockRuns (omega arith)

second_row : lookup node_key "n2" a_world.nodes ≡ some (a_node "n2" 0)
unfolding lookup
second_row = refl

poll_node-records_example :
    ((poll_node an_env (a_node "n2" 0) a_world).0 ≡ ok tt)
    × Recorded an_env
        (a_node "n2" 0)
        (a_node "n2" 0)
        (contact an_env (a_node "n2" 0) a_world).0
        (poll_node an_env (a_node "n2" 0) a_world).1
poll_node-records_example =
    poll_node-records an_env (a_node "n2" 0) (a_node "n2" 0) a_world second_row

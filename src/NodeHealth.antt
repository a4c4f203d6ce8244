-- ===== src/NodeHealth.antt =====
-- One tick of the health poller: packages/control-plane/src/nodeHealth.ts, `pollAllNodes`, and `pingNode`
-- of runtime/nodes.ts. The code pings the nodes at the same time; here they come one after the other.
pub mod Outcome
use labforge.Base.{ℕ, String, ◌<>◌, ◌-◌, Option, none, some, filter, if◌then◌else◌}
use labforge.Base.Texts.{take_chars, fits}
use labforge.Exec.{pure, gets, try_catch, for_each, ◌>>=◌, ◌>>◌}
use labforge.Data.{Node}
use labforge.World.{M, Env, docker_version}
use labforge.Store.{ask, now, update_node}
use labforge.Nodes.Runtimes.{build_docker_client, invalidate_node_runtime}

pub data Ping : Type 0 where
  reachable : (version : String) → Ping
  unreachable : (error : String) → Ping

-- The answer of the call is the text that the code makes of the version.
unfoldable pub ping_node : Env → Node → M Ping
ping_node env node =
    try_catch
      (do
        client ← build_docker_client env (some node)
        version ← ask env.text_answer (docker_version client)
        pure (reachable version))
      (λ e. pure (unreachable (env.error_text e)))

unfoldable pub truncate : String → ℕ → String
unfolding fits take_chars
truncate s limit = if fits limit s then s else take_chars (limit - 1) s <> "…"

abbrev pub set_seen : ℕ → String → Node → Node
set_seen t version r = record r {
  last_seen_at = some t;
  last_error = none;
  docker_version = some version;
}

abbrev pub set_error : String → Node → Node
set_error error r = record r { last_error = some (truncate error 500) }

unfoldable pub record_ping : Env → Node → Ping → M (Unit {0})
record_ping env node (reachable version) = do
  t ← now env
  update_node node.id (set_seen t version)
  pure tt
record_ping env node (unreachable error) = do
  update_node node.id (set_error error)
  invalidate_node_runtime node.id

-- A failure to persist is logged.
unfoldable pub poll_node : Env → Node → M (Unit {0})
poll_node env node = do
  res ← ping_node env node
  try_catch (record_ping env node res) (λ _. pure tt)

unfoldable pub poll_all_nodes : Env → M (Unit {0})
poll_all_nodes env = do
  nodes ← gets (λ w. filter (λ (n : Node). n.enabled) w.nodes)
  for_each nodes (poll_node env)

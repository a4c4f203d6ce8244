-- ===== src/Nodes/Runtimes.antt =====
-- The Docker client of a node, and the process-wide cache of runtimes: `buildDockerClient`,
-- `getNodeRuntime`, `invalidateNodeRuntime` and `pingNode` of runtime/nodes.ts.
pub mod Cache
use labforge.Base.{String, Option, none, some, ◌∷◌, ◌==◌, if◌then◌else◌, or_else}
use labforge.Base.{filter, not}
use labforge.Exec.{
  missing_ssh_host, missing_ssh_auth, unsupported_mode, pure, raise, gets, modify, ◌>>=◌, ◌>>◌,
}
use labforge.Data.{Node, ConnectionMode, local, ssh}
use labforge.World.{
  World, M, Env, Client, socket, over_ssh, Runtime, default_runtime, docker_runtime, RuntimeName,
  docker, mock, read_file, new_docker,
}
use labforge.Table.{lookup}
use labforge.Store.{ask}

abbrev pub cache_key {ℓ} : {A : Type ℓ} → String × A → String
cache_key e = e.0

-- `sshKeyCache.set(path, key)`
abbrev pub remember_key : String → String → World → World
remember_key path key w = record w { ssh_key_cache = (path, key) ∷ w.ssh_key_cache }

-- `runtimeCache.set(key, rt)`
abbrev pub remember_runtime : String → Runtime → World → World
remember_runtime key rt w = record w { runtime_cache = (key, rt) ∷ w.runtime_cache }

-- `key = sshKeyCache.get(path) ?? await readFile(path)`, cached.
unfoldable pub read_key : Env → String → Option (String × String) → M String
read_key env path (some e) = pure e.1
read_key env path none = do
  key ← ask env.text_answer (read_file path)
  modify (remember_key path key)
  pure key

unfoldable pub ssh_key : Env → Option String → M (Option String)
ssh_key env none = pure none
ssh_key env (some path) = do
  cached ← gets (λ w. lookup cache_key path w.ssh_key_cache)
  key ← read_key env path cached
  pure (some key)

-- Empty texts are falsy.
abbrev pub truthy : Option String → Option String
truthy none = none
truthy (some s) = if s == "" then none else some s

abbrev pub log_new : Client → World → World
log_new client w = record w { calls = new_docker client ∷ w.calls }

-- `new Docker(options)`, on record: it makes another client each time, and does not throw.
unfoldable pub construct : Client → M Client
construct client = do modify (log_new client); pure client

-- The branch `connectionMode === 'ssh'`: a key wins over a password.
unfoldable pub ssh_client : Env → Node → Option String → Option String → Option String → M Client
ssh_client env node none path password = raise missing_ssh_host
ssh_client env node (some host) none none = raise missing_ssh_auth
ssh_client env node (some host) (some path) password = do
  key ← ssh_key env (some path)
  construct (over_ssh host (or_else node.ssh_port 22) (or_else node.ssh_user "ubuntu") key none)
ssh_client env node (some host) none (some password) =
    construct (
      over_ssh host (or_else node.ssh_port 22) (or_else node.ssh_user "ubuntu") none
        (some password))

unfoldable pub mode_client : Env → Node → ConnectionMode → M Client
mode_client env node local = construct (socket env.config.docker_host_socket)
mode_client env node ssh =
    ssh_client env node (truthy node.ssh_host) (truthy node.ssh_key_path) (truthy node.ssh_password)
mode_client env node _ = raise unsupported_mode

unfoldable pub build_docker_client : Env → Option Node → M Client
build_docker_client env none = construct (socket env.config.docker_host_socket)
build_docker_client env (some node) = mode_client env node node.connection_mode

-- `node?.id ?? LOCAL_KEY`
abbrev pub runtime_key : Option Node → String
runtime_key none = "__local__"
runtime_key (some node) = node.id

abbrev pub proxy_host_of : Option Node → String
proxy_host_of none = "127.0.0.1"
proxy_host_of (some node) = node.proxy_host

abbrev pub bind_ip_of : Option Node → String
bind_ip_of none = "127.0.0.1"
bind_ip_of (some node) = node.bind_ip

unfoldable pub build_runtime : Env → Option Node → Option (String × Runtime) → M Runtime
build_runtime env _ (some cached) = pure cached.1
build_runtime env node none = do
  client ← build_docker_client env node
  let rt = docker_runtime client (proxy_host_of node) (bind_ip_of node)
  modify (remember_runtime (runtime_key node) rt)
  pure rt

-- `if (config.RUNTIME !== 'docker') return getDefaultRuntime();`
unfoldable pub runtime_under : RuntimeName → Env → Option Node → M Runtime
runtime_under mock env _ = pure default_runtime
runtime_under docker env node = do
  cached ← gets (λ w. lookup cache_key (runtime_key node) w.runtime_cache)
  build_runtime env node cached

unfoldable pub get_node_runtime : Env → Option Node → M Runtime
get_node_runtime env node = runtime_under env.config.runtime env node

-- `runtimeCache.delete(nodeId)`
unfoldable pub invalidate_node_runtime : String → M (Unit {0})
invalidate_node_runtime id =
    modify (λ w. record w { runtime_cache = filter (λ e. not (e.0 == id)) w.runtime_cache })

-- ===== src/Orchestrator/Hosts.antt =====
-- `runtimeFor`: the runtime that owns an instance. `rmOverlayDir` of runtime/nodeShell.ts.
use Prim.Native.String.{String}
use text.Mathlib.Text.{starts_with, find?}
use labforge.Base.{Bool, Option, none, some, ◌==◌, ◌||◌, not, is_some, if◌then◌else◌}
use labforge.Exec.{unsafe_path, pure, raise, ◌>>=◌}
use labforge.Data.{Node}
use labforge.World.{M, Env, Runtime, default_runtime, remove_dir}
use labforge.Store.{ask, find_node}
use labforge.Nodes.Runtimes.{get_node_runtime, truthy}

unfoldable pub runtime_at : Env → Option String → M Runtime
runtime_at env none = pure default_runtime
runtime_at env (some id) = do node ← find_node id; get_node_runtime env node

unfoldable pub runtime_for : Env → Option String → M Runtime
runtime_for env node_id = runtime_at env (truthy node_id)

-- `node ? await getNodeRuntime(node) : getRuntime()`
unfoldable pub runtime_of_node : Env → Option Node → M Runtime
runtime_of_node env none = pure default_runtime
runtime_of_node env (some n) = get_node_runtime env (some n)

unfoldable pub is_unsafe : String → Bool
is_unsafe dir = dir == "" || (not (starts_with dir "/") || (dir == "/" || is_some (find? dir "..")))

unfoldable pub rm_overlay_dir : Env → Option Node → String → M (Unit {0})
rm_overlay_dir env node dir =
    if is_unsafe dir then raise unsafe_path else ask env.unit_answer (remove_dir node dir)

-- ===== src/Nodes/Resolve.antt =====
-- `resolveNodeForProvision` of runtime/nodes.ts: the node that a fresh instance lands on.
pub mod Enabled
pub mod Pool
use labforge.Base.{
  String, Option, none, some, List, [], ◌∷◌, ◌==◌, ◌&&◌, not, if◌then◌else◌, filter, find,
  or_option, take,
}
use labforge.Exec.{no_healthy_node, pinned_disabled, pure, raise, gets, ◌>>=◌}
use labforge.Data.{Node, Template, Tenant}
use labforge.World.{World, M, Env, Scheduler, spread, pinned}
use labforge.Store.{find_node, find_tenant, find_template}
use labforge.Nodes.Pick.{pick_least_loaded_node}

-- `xs.filter((id) => id.length > 0)`
abbrev pub nonempty : List String → List String
nonempty xs = filter (λ id. not (id == "")) xs

-- `findFirst({ where: { enabled: true, isDefault: true } })`
unfoldable pub default_node : World → Option Node
default_node w = find (λ (n : Node). n.enabled && n.is_default) w.nodes

abbrev pub single : List Node → Option Node
single (n ∷ []) = some n
single _ = none

-- The only enabled node, where there is exactly one (`findMany` with `take: 2`).
unfoldable pub only_enabled : World → Option Node
only_enabled w = single (take 2 (filter (λ (n : Node). n.enabled) w.nodes))

-- Go on where no node was found.
unfoldable pub or_try : Option Node → M (Option Node) → M (Option Node)
or_try none k = k
or_try (some n) k = pure (some n)

-- The default node, else the single enabled one, else none.
unfoldable pub fall_back : M (Option Node)
fall_back = do def ← gets default_node; or_try def (gets only_enabled)

-- Step 0: the request names nodes.
unfoldable pub resolve_override : Env → List String → M (Option Node)
resolve_override env override = do
  picked ← pick_least_loaded_node env override
  or_try picked (do
    def ← gets default_node
    or_try def (do any_node ← pick_least_loaded_node env []; or_try any_node (gets only_enabled)))

-- Step 3: the scheduler, within the template's pool where it has one.
unfoldable pub after_spread : List String → Option Node → M (Option Node)
after_spread allowed (some n) = pure (some n)
after_spread [] none = fall_back
after_spread (a ∷ allowed) none = raise no_healthy_node

unfoldable pub schedule_by : Scheduler → Env → List String → M (Option Node)
schedule_by pinned env allowed = fall_back
schedule_by spread env allowed = do
  picked ← pick_least_loaded_node env allowed
  after_spread allowed picked

unfoldable pub schedule : Env → List String → M (Option Node)
schedule env allowed = schedule_by env.config.lab_scheduler env allowed

-- Steps 1 and 2: a pinned node that is disabled is an error, and one that is gone counts for nothing.
unfoldable pub use_pin : Env → List String → Option Node → M (Option Node)
use_pin env allowed none = schedule env allowed
use_pin env allowed (some n) = if n.enabled then pure (some n) else raise pinned_disabled

abbrev pub tenant_pin : Option Tenant → Option String
tenant_pin none = none
tenant_pin (some t) = t.default_node_id

abbrev pub template_pin : Option Template → Option String
template_pin none = none
template_pin (some t) = t.default_node_id

abbrev pub template_pool : Option Template → List String
template_pool none = []
template_pool (some t) = t.allowed_node_ids

-- `if (candidateId)`: the empty text is no pin.
unfoldable pub find_pin : Option String → M (Option Node)
find_pin none = pure none
find_pin (some id) = if id == "" then pure none else find_node id

unfoldable pub resolve_pinned : Env → String → String → M (Option Node)
resolve_pinned env tenant_id template_id = do
  tenant ← find_tenant tenant_id
  template ← find_template template_id
  pin ← find_pin (or_option (tenant_pin tenant) (template_pin template))
  use_pin env (nonempty (template_pool template)) pin

-- Empty identifiers do not count, and with none left there is no override.
unfoldable pub resolve_over : Env → (tenant_id template_id : String) → List String → M (Option Node)
resolve_over env tenant_id template_id [] = resolve_pinned env tenant_id template_id
resolve_over env tenant_id template_id (id ∷ ids) = resolve_override env (id ∷ ids)

unfoldable pub resolve_node_for_provision :
    Env → (tenant_id template_id : String) → (override_node_ids : List String) → M (Option Node)
resolve_node_for_provision env tenant_id template_id override_node_ids =
    resolve_over env tenant_id template_id (nonempty override_node_ids)

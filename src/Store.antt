-- ===== src/Store.antt =====
-- The queries and writes that the handlers make through Prisma, and the calls to what lies outside.
-- A table that is read or written is always reachable; `update` throws where the row is missing, and
-- `create` where a unique column would hold a value twice (packages/control-plane/prisma/schema.prisma).
use labforge.Base.{
  ℕ, String, Option, none, some, List, [], ◌∷◌, ◌++◌, ◌==◌, ◌||◌, ◌&&◌, not, Bool, false,
  if◌then◌else◌, any,
}
use labforge.Exec.{Result, ok, err, row_not_found, unique_violation, gets, modify, ◌>>=◌}
use labforge.Data.{Instance, Node, Template, Tenant, Launch, UsageEvent}
use labforge.World.{M, Env, Call, date_now, random_id}
use labforge.Table.{lookup, update}

-- Make a call: its answer comes from the environment, and the call is on record.
unfoldable pub ask : {A : Type 0} → (List Call → Call → Result A) → Call → M A
ask answer c w = (answer w.calls c, record w { calls = c ∷ w.calls })

-- `Date.now()`
unfoldable pub now : Env → M ℕ
unfolding ask
now env = ask (λ cs c. ok (env.num_answer cs c)) date_now

-- `nanoid()`, `cuid()`, `randomBytes()`
unfoldable pub fresh : Env → M String
unfolding ask
fresh env = ask (λ cs c. ok (env.fresh_answer cs)) random_id

abbrev pub instance_key : Instance → String
instance_key r = r.id

abbrev pub node_key : Node → String
node_key r = r.id

abbrev pub template_key : Template → String
template_key r = r.id

abbrev pub tenant_key : Tenant → String
tenant_key r = r.id

abbrev pub launch_key : Launch → String
launch_key r = r.id

-- prisma.labInstance.findUnique
unfoldable pub find_instance : String → M (Option Instance)
unfolding gets
find_instance id = gets (λ w. lookup instance_key id w.instances)

unfoldable pub put_instance : String → (Instance → Instance) → Option Instance → M Instance
put_instance id f none w = (err row_not_found, w)
put_instance id f (some r) w =
    (ok (f r), record w { instances = update instance_key id f w.instances })

-- prisma.labInstance.update
unfoldable pub update_instance : String → (Instance → Instance) → M Instance
unfolding put_instance
update_instance id f w = put_instance id f (lookup instance_key id w.instances) w

-- prisma.labInstance.create: the identifier and the subdomain are unique.
unfoldable pub create_instance : Instance → M Instance
create_instance r w =
    if any (λ x. x.id == r.id || x.subdomain == r.subdomain) w.instances
    then (err unique_violation, w)
    else (ok r, record w { instances = w.instances ++ r ∷ [] })

-- prisma.node.findUnique
unfoldable pub find_node : String → M (Option Node)
unfolding gets
find_node id = gets (λ w. lookup node_key id w.nodes)

unfoldable pub put_node : String → (Node → Node) → Option Node → M Node
put_node id f none w = (err row_not_found, w)
put_node id f (some r) w = (ok (f r), record w { nodes = update node_key id f w.nodes })

-- prisma.node.update
unfoldable pub update_node : String → (Node → Node) → M Node
unfolding put_node
update_node id f w = put_node id f (lookup node_key id w.nodes) w

-- prisma.labTemplate.findUnique
unfoldable pub find_template : String → M (Option Template)
unfolding gets
find_template id = gets (λ w. lookup template_key id w.templates)

-- prisma.tenant.findUnique
unfoldable pub find_tenant : String → M (Option Tenant)
unfolding gets
find_tenant id = gets (λ w. lookup tenant_key id w.tenants)

-- prisma.launch.findUnique
unfoldable pub find_launch : String → M (Option Launch)
unfolding gets
find_launch id = gets (λ w. lookup launch_key id w.launches)

abbrev pub both_set : Option String → Option String → Bool
both_set (some a) (some b) = a == b
both_set _ _ = false

-- The unique columns of a launch, where both rows have a value.
abbrev pub clashes : Launch → Launch → Bool
clashes r x = both_set r.token_jti x.token_jti || both_set r.instance_id x.instance_id

unfoldable pub put_launch : String → (Launch → Launch) → Option Launch → M Launch
put_launch id f none w = (err row_not_found, w)
put_launch id f (some r) w =
    if any (λ x. not (x.id == id) && clashes (f r) x) w.launches
    then (err unique_violation, w)
    else (ok (f r), record w { launches = update launch_key id f w.launches })

-- prisma.launch.update
unfoldable pub update_launch : String → (Launch → Launch) → M Launch
unfolding put_launch
update_launch id f w = put_launch id f (lookup launch_key id w.launches) w

-- prisma.launch.create
unfoldable pub create_launch : Launch → M Launch
create_launch r w =
    if any (λ x. x.id == r.id || clashes r x) w.launches
    then (err unique_violation, w)
    else (ok r, record w { launches = w.launches ++ r ∷ [] })

-- recordUsage and emitUsage of packages/control-plane/src/metering.ts, where no `occurredAt` is given.
-- The event is written with the time of the call.
unfoldable pub emit_usage : Env → (ℕ → UsageEvent) → M (Unit {0})
unfolding ◌>>=◌ now
emit_usage env event = do
  t ← now env
  modify (λ w. record w { usage_events = event t ∷ w.usage_events })

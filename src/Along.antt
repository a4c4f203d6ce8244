-- ===== src/Along.antt =====
-- Guarantees that every operation of the control plane gives as soon as its writes give them: a relation
-- between states that a change of other tables keeps, an update of a row keeps, and a new row keeps.
pub mod Hosts
pub mod Rows
pub mod Labs
pub mod Ticks
pub mod Launches
pub mod Routes
pub mod Batches
pub mod Proxy
use labforge.Base.{ℕ, String, refl, Option, none, some, List, ◌≡◌}
use labforge.Exec.{Result, modify}
use labforge.Exec.Moves.{Guarantee, Moves, moves_rules}
use labforge.Data.{Instance, Node, UsageEvent}
use labforge.World.{World, Env, Call}
use labforge.Store.{
  ask, now, fresh, find_node, find_template, find_tenant, find_instance, update_instance,
  create_instance, put_node, update_node, emit_usage, node_key,
}
use labforge.Guacamole.{regenerate_mapping}
use labforge.Table.{lookup}

-- What no write of an instance changes.
abbrev pub identity : Instance → String × (String × (String × String))
identity r = (r.id, (r.subdomain, (r.tenant_id, r.template_id)))

pub record IsClosed (g : Guarantee World) : Type 0 where
  -- The instances and the launches stay as they are.
  pub quiet : (s t : World) → t.instances ≡ s.instances → t.launches ≡ s.launches → g.rel s t
  pub on_update :
      (id : String) (f : Instance → Instance)
      → ((r : Instance) → identity (f r) ≡ identity r)
      → Moves g (update_instance id f)
  pub on_create : (r : Instance) → Moves g (create_instance r)

module _ (g : Guarantee World) (c : IsClosed g) where
  pub ask-Along : {A : Type 0} (f : List Call → Call → Result A) (x : Call) → Moves g (ask f x)
  unfolding ask
  ask-Along f x = record { at = λ s. c.quiet s _ refl refl }

  pub modify-Along :
      (f : World → World)
      → ((s : World) → (f s).instances ≡ s.instances)
      → ((s : World) → (f s).launches ≡ s.launches)
      → Moves g (modify f)
  unfolding modify
  modify-Along f h k = record { at = λ s. c.quiet s (f s) (h s) (k s) }

  pub now-Along : (env : Env) → Moves g (now env)
  unfolding now ask
  now-Along env = record { at = λ s. c.quiet s _ refl refl }

  pub fresh-Along : (env : Env) → Moves g (fresh env)
  unfolding fresh ask
  fresh-Along env = record { at = λ s. c.quiet s _ refl refl }

  pub emit_usage-Along : (env : Env) (e : ℕ → UsageEvent) → Moves g (emit_usage env e)
  unfolding emit_usage now ask
  emit_usage-Along env e = record { at = λ s. c.quiet s _ refl refl }

  pub find_node-Along : (id : String) → Moves g (find_node id)
  unfolding find_node
  find_node-Along id = search moves_rules

  pub find_template-Along : (id : String) → Moves g (find_template id)
  unfolding find_template
  find_template-Along id = search moves_rules

  pub find_tenant-Along : (id : String) → Moves g (find_tenant id)
  unfolding find_tenant
  find_tenant-Along id = search moves_rules

  pub find_instance-Along : (id : String) → Moves g (find_instance id)
  unfolding find_instance
  find_instance-Along id = search moves_rules

  put_node-Along :
      (id : String) (f : Node → Node) (o : Option Node) (s : World) → g.rel s (put_node id f o s).1
  unfolding put_node
  put_node-Along id f none s = g.stay s
  put_node-Along id f (some r) s = c.quiet s _ refl refl

  pub update_node-Along : (id : String) (f : Node → Node) → Moves g (update_node id f)
  unfolding update_node
  update_node-Along id f = record { at = λ s. put_node-Along id f (lookup node_key id s.nodes) s }

  pub create_instance-Along : (r : Instance) → Moves g (create_instance r)
  create_instance-Along r = c.on_create r

  pub regenerate_mapping-Along : (env : Env) → Moves g (regenerate_mapping env)
  unfolding regenerate_mapping
  regenerate_mapping-Along env = ask-Along _ _

pub ruleset along_rules = (
  moves_rules, ask-Along, now-Along, fresh-Along, emit_usage-Along, find_node-Along,
  find_template-Along, find_tenant-Along, find_instance-Along, create_instance-Along,
  regenerate_mapping-Along, update_node-Along,
)

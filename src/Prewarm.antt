-- ===== src/Prewarm.antt =====
-- One tick of the warm pool: packages/control-plane/src/prewarm.ts, `reconcileOnce`.
use labforge.Base.{
  ℕ, zero, suc, ◌+◌, ◌-◌, ◌*◌, Bool, true, Option, none, some, [], ◌==◌, ◌&&◌, if◌then◌else◌,
  filter, length, leb, min,
}
use labforge.Exec.{pure, gets, for_each, ◌>>=◌, ◌>>◌}
use labforge.Data.{Instance, Template, Spec}
use labforge.Data.Statuses.{is_warm}
use labforge.World.{M, World, Env}
use labforge.Store.{now}
use labforge.Orchestrator.Provision.{provision_new}

abbrev pub is_pooled : Template → Instance → Bool
is_pooled tmpl i = i.template_id == tmpl.id && (i.is_prewarm && is_warm i.status)

unfoldable pub pool_size : Template → World → ℕ
pool_size tmpl w = length (filter (is_pooled tmpl) w.instances)

-- `need <= 0` creates nothing, and a tick creates two at most.
abbrev pub to_create : (desired current : ℕ) → ℕ
to_create desired current = min (desired - current) 2

unfoldable pub warm_one : Env → Template → M (Unit {0})
warm_one env tmpl = do
  t ← now env
  provision_new env (record {
    tenant_id = tmpl.tenant_id;
    template = tmpl;
    user_id_hash = none;
    expires_at = t + 60 * 60000;
    is_prewarm = true;
    node_ids = [];
  })
  pure tt

-- `for (let i = 0; i < toCreate; i += 1)`: an error ends the tick.
unfoldable pub warm_times : Env → Template → ℕ → M (Unit {0})
warm_times env tmpl zero = pure tt
warm_times env tmpl (suc n) = warm_one env tmpl >>= λ _. warm_times env tmpl n

unfoldable pub warm_spec : Env → Template → Option Spec → M (Unit {0})
warm_spec env tmpl none = pure tt
warm_spec env tmpl (some spec) =
    if leb spec.prewarm 0
    then pure tt
    else (do current ← gets (pool_size tmpl); warm_times env tmpl (to_create spec.prewarm current))

-- A template whose spec is invalid is passed over.
unfoldable pub warm_template : Env → Template → M (Unit {0})
warm_template env tmpl = warm_spec env tmpl (env.parse_spec tmpl.spec)

unfoldable pub reconcile_pool : Env → M (Unit {0})
reconcile_pool env = do templates ← gets (λ w. w.templates); for_each templates (warm_template env)

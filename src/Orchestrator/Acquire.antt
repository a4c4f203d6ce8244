-- ===== src/Orchestrator/Acquire.antt =====
-- `acquireInstance` and `claimPrewarm`: the lab of a user, reused, claimed from the warm pool or fresh.
pub mod Claims
pub mod Reuse
pub mod Outcome
use labforge.Base.{
  ℕ, ◌+◌, ◌*◌, String, Bool, true, false, Option, none, some, List, [], ◌∷◌, ◌==◌, ◌&&◌, not,
  if◌then◌else◌, filter, find, any, ltb, text_option_eq,
}
use labforge.Exec.{pure, gets, ◌>>=◌, ◌>>◌}
use labforge.Data.{Instance, Template, UsageEvent, instance_ready, from_prewarm}
use labforge.Data.Statuses.{is_reusable, is_ready}
use labforge.World.{M, Env}
use labforge.Store.{now, update_instance, emit_usage}
use labforge.Nodes.Resolve.{nonempty}
use labforge.Orchestrator.Lifecycle.{about_instance}
use labforge.Orchestrator.Provision.{newest, provision_new}

pub record AcquireInput : Type 0 where
  pub tenant_id : String
  pub template : Template
  pub user_id_hash : String
  pub duration_minutes : ℕ
  pub expires_at : Option ℕ
  pub node_ids : List String

-- The user's instances of the template that can be used again.
abbrev pub is_own : String → String → Instance → Bool
is_own template_id user i =
    i.template_id == template_id
    && (text_option_eq i.user_id_hash (some user) && (not i.is_prewarm && is_reusable i.status))

-- `"nodeId" = ANY(pinned)`, in the query for a pinned request only.
abbrev pub on_pinned : List String → Option String → Bool
on_pinned [] node_id = true
on_pinned (p ∷ ps) none = false
on_pinned (p ∷ ps) (some id) = any (λ q. q == id) (p ∷ ps)

-- The inner SELECT of the claim.
abbrev pub is_claimable : String → List String → Instance → Bool
is_claimable template_id pinned i =
    i.template_id == template_id
    && (i.is_prewarm && (is_ready i.status && on_pinned pinned i.node_id))

abbrev pub set_claimed : String → ℕ → Instance → Instance
set_claimed user expires_at r = record r {
  is_prewarm = false;
  user_id_hash = some user;
  expires_at = expires_at;
}

abbrev pub prewarm_event : Instance → ℕ → UsageEvent
prewarm_event inst t =
    let e = about_instance instance_ready inst t in record e { payload = from_prewarm }

unfoldable pub claim_row : Env → String → ℕ → Option Instance → M (Option Instance)
claim_row env user expires_at none = pure none
claim_row env user expires_at (some row) = do
  claimed ← update_instance row.id (set_claimed user expires_at)
  emit_usage env (prewarm_event claimed)
  pure (some claimed)

unfoldable pub claim_prewarm :
    Env
    → (template_id user : String) → (expires_at : ℕ) → (node_ids : List String)
    → M (Option Instance)
claim_prewarm env template_id user expires_at node_ids = do
  row ← gets (λ w. find (is_claimable template_id (nonempty node_ids)) w.instances)
  claim_row env user expires_at row

-- Reuse a row, and extend its expiry where the new window is longer.
unfoldable pub reuse : Instance → ℕ → M Instance
reuse existing expires_at =
    if ltb existing.expires_at expires_at
    then update_instance existing.id (λ r. record r { expires_at = expires_at })
    else pure existing

unfoldable pub expiry_of : Env → ℕ → Option ℕ → M ℕ
expiry_of env minutes (some t) = pure t
expiry_of env minutes none = do t ← now env; pure (t + minutes * 60000)

unfoldable pub or_provision : Env → AcquireInput → ℕ → Option Instance → M Instance
or_provision env input expires_at (some claimed) = pure claimed
or_provision env input expires_at none = provision_new env (record {
  tenant_id = input.tenant_id;
  template = input.template;
  user_id_hash = some input.user_id_hash;
  expires_at = expires_at;
  is_prewarm = false;
  node_ids = input.node_ids;
})

unfoldable pub or_claim : Env → AcquireInput → ℕ → Option Instance → M Instance
or_claim env input expires_at (some existing) = reuse existing expires_at
or_claim env input expires_at none = do
  claimed ← claim_prewarm env input.template.id input.user_id_hash expires_at input.node_ids
  or_provision env input expires_at claimed

unfoldable pub acquire_instance : Env → AcquireInput → M Instance
acquire_instance env input = do
  expires_at ← expiry_of env input.duration_minutes input.expires_at
  existing ← gets (λ w. newest (filter (is_own input.template.id input.user_id_hash) w.instances))
  or_claim env input expires_at existing

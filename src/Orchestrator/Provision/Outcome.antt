-- ===== src/Orchestrator/Provision/Outcome.antt =====
-- What `provisionNew` leaves behind, when it returns and when it throws.
use mathlib.Core.Path.{subst}
use labforge.Base.{ℕ, String, ◌≡◌, refl, Bool, true, false, Option, none, some, is_some}
use labforge.Exec.{Error, pure, ◌>>=◌}
use labforge.Exec.Laws.{Total}
use labforge.Exec.Triple.{
  Post, Triple, Triple-bind, Triple-try_catch, Triple-pure, Triple-raise, Triple-fact, Triple-Total,
}
use labforge.Data.{Instance, Node, Spec, ready, failed, ProvisionResult}
use labforge.World.{World, M, Env}
use labforge.Guacamole.{mint, or_mint, of_row, ensure_guacamole_credentials}
use labforge.Nodes.Runtimes.{truthy}
use labforge.Frame.Leaves.{
  ask-rows, now-rows, find_instance-rows, regenerate_mapping-rows, fresh-rows,
}
use labforge.Frame.Added.{At, Triple-same, Triple-update}
use labforge.Orchestrator.Destroy.{best_effort}
use labforge.Orchestrator.Sync.{nonzero}
use labforge.Orchestrator.Provision.{
  ProvisionInput, prepare_overlay, sync_guacamole, announce, record_lab, set_provisioned,
}
use labforge.Orchestrator.Provision.Quiet.{sync_guacamole-Total, announce-Total, announce-rows}

-- The row is for the request.
abbrev pub IsFor : ProvisionInput → Instance → Type 0
IsFor input r =
    (r.tenant_id ≡ input.tenant_id)
    × (r.template_id ≡ input.template.id)
    × (r.user_id_hash ≡ input.user_id_hash)
    × (r.expires_at ≡ input.expires_at)
    × (r.is_prewarm ≡ input.is_prewarm)

abbrev pub IsPending : ProvisionInput → Instance → Type 0
IsPending input r = IsFor input r × (r.runtime_id ≡ none)

-- Ready, with the container recorded.
abbrev pub IsStarted : ProvisionInput → Instance → Type 0
IsStarted input r = IsFor input r × (r.status ≡ ready) × (is_some r.runtime_id ≡ true)

-- Failed, with no container recorded.
abbrev pub IsFailed : ProvisionInput → Instance → Type 0
IsFailed input r = IsFor input r × (r.status ≡ failed) × (r.runtime_id ≡ none)

-- The assertions about the row `id` over the other rows of `w`.
module _ (env : Env) (input : ProvisionInput) (id : String) (w : World) where
  abbrev pub Pending : World → Type 0
  Pending = At id w (IsPending input)

  abbrev pub Started : World → Type 0
  Started = At id w (IsStarted input)

  abbrev pub Abandoned : Error → World → Type 0
  Abandoned e = At id w (IsFailed input)

  pub prepare_overlay-keeps :
      (host : Option Node) (spec : Spec) (golden : Option String)
      → Triple Pending (λ _. Pending) (λ _. Pending) (prepare_overlay env host spec id golden)
  unfolding prepare_overlay
  prepare_overlay-keeps host spec none = Triple-pure _ (λ s p. p)
  prepare_overlay-keeps host spec (some golden) =
      Triple-bind _ _ (Triple-same id w _ _ (ask-rows _ _)) λ _.
        Triple-bind _ _
          (Triple-update id w (IsPending input) (IsPending input) _ _ (λ r. refl) (λ r h. h))
          λ r. Triple-pure _ (λ s p. p.1)

  mint-keeps : Triple Started (λ _. Started) (λ _. Started) (mint env id)
  unfolding mint
  mint-keeps = Triple-bind _ _ (Triple-same id w _ _ (fresh-rows env)) λ _.
      Triple-bind _ _ (Triple-same id w _ _ (fresh-rows env)) λ _.
        Triple-bind _ _
          (Triple-update id w (IsStarted input) (IsStarted input) _ _ (λ r. refl) (λ r h. h))
          λ r. Triple-pure _ (λ s p. p.1)

  or_mint-keeps :
      (user password : Option String)
      → Triple Started (λ _. Started) (λ _. Started) (or_mint env id user password)
  unfolding or_mint
  or_mint-keeps (some user) (some password) = Triple-pure _ (λ s p. p)
  or_mint-keeps (some user) none = mint-keeps
  or_mint-keeps none password = mint-keeps

  of_row-keeps :
      (r : Option Instance) → Triple Started (λ _. Started) (λ _. Started) (of_row env id r)
  unfolding of_row
  of_row-keeps none = Triple-raise _ (λ s p. p)
  of_row-keeps (some r) = or_mint-keeps (truthy r.guacamole_user) (truthy r.guacamole_password)

  ensure-keeps : Triple Started (λ _. Started) (λ _. Started) (ensure_guacamole_credentials env id)
  unfolding ensure_guacamole_credentials
  ensure-keeps = Triple-bind _ _ (Triple-same id w _ _ (find_instance-rows id)) of_row-keeps

  best_effort-keeps :
      (m : M (Unit {0}))
      → Triple Started (λ _. Started) (λ _. Started) m
      → Triple Started (λ _. Started) (λ _. Started) (best_effort m)
  unfolding best_effort
  best_effort-keeps m h = Triple-try_catch m _ h (λ e. Triple-pure tt (λ s p. p))

  sync_guacamole-keeps :
      (b : Bool) (port : Option ℕ)
      → Triple Started (λ _. Started) (λ _. Started) (sync_guacamole env b id port)
  unfolding sync_guacamole
  sync_guacamole-keeps false (some port) =
      best_effort-keeps _
        (Triple-bind _ _ ensure-keeps (λ _. Triple-same id w _ _ (regenerate_mapping-rows env)))
  sync_guacamole-keeps false none = Triple-pure tt (λ s p. p)
  sync_guacamole-keeps true port = Triple-pure tt (λ s p. p)

  -- From the write on, nothing throws.
  no_throw :
      (m : M (Unit {0}))
      → Total m
      → Triple Started (λ _. Started) (λ _. Started) m
      → Triple Started (λ _. Started) (λ _. Pending) m
  no_throw m t h =
      Triple-Total m t
        (λ s p. subst (λ r. Post (λ _. Started) (λ _. Started) r (m s).1) (t s) (h.run s p))

  abbrev pub Returned : Instance → World → Type 0
  Returned a s = ((a.id ≡ id) × IsStarted input a) × Started s

  after_update :
      (a : Instance) (rdp : Option ℕ)
      → (a.id ≡ id) × IsStarted input a
      → Triple Started Returned
          (λ _. Pending)
          (sync_guacamole env input.is_prewarm a.id rdp >>= λ _.
            announce env input.is_prewarm a >>= λ _. pure a)
  after_update a rdp h =
      Triple-bind _ _
        (no_throw _ (sync_guacamole-Total env input.is_prewarm a.id rdp)
          (rw h.0 (sync_guacamole-keeps input.is_prewarm rdp)))
        λ _.
          Triple-bind _ _
            (no_throw _ (announce-Total env input.is_prewarm a)
              (Triple-same id w _ _ (announce-rows env input.is_prewarm a)))
            λ _. Triple-pure a (λ s p. (h, p))

  pub record_lab-returns :
      (host : Option Node) (res : ProvisionResult) (rdp : Option ℕ)
      → Triple Pending Returned (λ _. Pending) (record_lab env input host id res rdp)
  unfolding record_lab
  record_lab-returns host res rdp = Triple-bind _ _ (Triple-same id w _ _ (now-rows env)) λ t.
      Triple-bind _ _
        (Triple-update id w (IsPending input) (IsStarted input) _ (set_provisioned res rdp host t)
          (λ r. refl) (λ r h. (h.0, refl, refl)))
        λ a. Triple-fact _ _ (after_update a (nonzero rdp))

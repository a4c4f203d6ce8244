-- ===== src/Orchestrator/Acquire/Outcome.antt =====
-- What `acquireInstance` returns, by reuse, by a claim or by provisioning.
use mathlib.Core.Path.{subst}
use labforge.Base.{
  ℕ, ◌+◌, ◌*◌, ◌≡◌, refl, sym, ap, ◌∙◌, Option, none, some, List, filter, ltb, arith, Option-cases,
  inl, inr, or_else,
}
use labforge.Exec.{Error, gets, ◌>>=◌}
use labforge.Exec.Triple.{
  Post, Triple, Triple-bind, Triple-gets, Triple-fact, Triple-weaken, Triple-pure,
}
use labforge.Data.{Instance}
use labforge.Data.Statuses.{is_reusable}
use labforge.World.{World, Env, date_now}
use labforge.Store.{now, ask}
use labforge.Frame.Keys.{IsKeyed}
use labforge.Frame.Selected.{find_selected, newest_selected}
use labforge.Nodes.Resolve.{nonempty}
use labforge.Orchestrator.Provision.{newest, provision_new}
use labforge.Orchestrator.Provision.Outcome.{IsStarted}
use labforge.Orchestrator.Provision.Landing.{Same, provision_lands}
use labforge.Orchestrator.Acquire.{
  AcquireInput, is_own, is_claimable, reuse, expiry_of, or_provision, or_claim, claim_prewarm,
  acquire_instance,
}
use labforge.Orchestrator.Acquire.Claims.{
  IsClaimed, chosen, claim_none, claim_some, claim_prewarm-claims,
}
use labforge.Orchestrator.Acquire.Reuse.{
  IsAssigned, Assigned, fresh_input, requested, ready_reusable, Fails, IsOwn-all, reuse_if,
}

module _ (env : Env) (input : AcquireInput) (t : ℕ) (w : World) where
  claimed-Assigned :
      (s u : World) (i : Instance)
      → IsClaimed input.template.id input.user_id_hash t s u i
      → Assigned input t i u
  claimed-Assigned s u i c =
      let status = ap (λ (x : Instance). x.status) c.is_claimed in
      let fine : IsAssigned input t i = (
        c.same_template,
        ap (λ (x : Instance). x.user_id_hash) c.is_claimed,
        ap (λ (x : Instance). x.is_prewarm) c.is_claimed,
        ap is_reusable status ∙ ready_reusable c.spare.status c.was_ready,
        rw (ap (λ (x : Instance). x.expires_at) c.is_claimed) (omega arith),
      ) in
      (fine, (i, c.found, fine))

  -- After the claim.
  abbrev Claimed : Option Instance → World → Type 0
  Claimed none s = Same w s
  Claimed (some i) s = Assigned input t i s

  claim_lands :
      IsKeyed w.instances
      → Triple
          (Same w)
          Claimed
          (Fails env input t w)
          (claim_prewarm env input.template.id input.user_id_hash t input.node_ids)
  claim_lands keyed = record {
    run = λ s p.
        elim (Option-cases (chosen env input.template.id input.user_id_hash t input.node_ids s)) [
          | inl n ↦ rw (claim_none env input.template.id input.user_id_hash t input.node_ids s n) p
          | inr (r, q) ↦ claim_done s r (subst (λ (xs : List Instance). IsKeyed xs) (sym p) keyed) q
        ];
  }
    where
      claim_done :
          (s : World) (r : Instance)
          → IsKeyed s.instances
          → chosen env input.template.id input.user_id_hash t input.node_ids s ≡ some r
          → let o = claim_prewarm env input.template.id input.user_id_hash t input.node_ids s in
            Post Claimed (Fails env input t w) o.0 o.1
      claim_done s r k q =
          let row =
            (find_selected (is_claimable input.template.id (nonempty input.node_ids)) s.instances r
              k q).0 in
          let res =
            (claim_some env input.template.id input.user_id_hash t input.node_ids s r q row).0 in
          let u = (claim_prewarm env input.template.id input.user_id_hash t input.node_ids s).1 in
          subst (λ x. Post Claimed (Fails env input t w) x u) (sym res)
            (claimed-Assigned s u _ (
              claim_prewarm-claims env input.template.id input.user_id_hash t input.node_ids s _ k
                res))

  started-IsAssigned : (i : Instance) → IsStarted (fresh_input input t) i → IsAssigned input t i
  started-IsAssigned i ((a, b, c, d, e), s, r) = (b, c, e, ap is_reusable s, rw d (omega arith))

  provision_done :
      Triple
        (Same w)
        (Assigned input t)
        (Fails env input t w)
        (provision_new env (fresh_input input t))
  provision_done =
      Triple-weaken _ (λ s p. p)
        (λ i s h.
          (started-IsAssigned i h.0, (h.1.row, h.1.found, started-IsAssigned h.1.row h.1.holds)))
        (λ e s p. p) (provision_lands env (fresh_input input t) w)

  or_provision_lands :
      (o : Option Instance)
      → Triple (Claimed o) (Assigned input t) (Fails env input t w) (or_provision env input t o)
  unfolding or_provision
  or_provision_lands none = provision_done
  or_provision_lands (some i) = Triple-pure i (λ s p. p)

  or_claim_lands :
      IsKeyed w.instances
      → (o : Option Instance)
      → newest (filter (is_own input.template.id input.user_id_hash) w.instances) ≡ o
      → Triple (Same w) (Assigned input t) (Fails env input t w) (or_claim env input t o)
  unfolding or_claim reuse
  or_claim_lands keyed none e = Triple-bind _ _ (claim_lands keyed) or_provision_lands
  or_claim_lands keyed (some r) e =
      let (row, own) =
        newest_selected (is_own input.template.id input.user_id_hash) w.instances r keyed e in
      reuse_if env input t w r (ltb r.expires_at t) row (IsOwn-all env input t w r own) refl

  acquire_lands :
      IsKeyed w.instances
      → Triple (Same w) (Assigned input t) (Fails env input t w) (
          gets (λ (s : World).
            newest (filter (is_own input.template.id input.user_id_hash) s.instances))
          >>= or_claim env input t)
  acquire_lands keyed = Triple-gets _ _ λ o.
      Triple-weaken _
        (λ s p. (
          ap (λ xs. newest (filter (is_own input.template.id input.user_id_hash) xs)) (sym p.1)
              ∙ p.0,
          p.1,
        ))
        (λ i s p. p) (λ e s p. p) (Triple-fact _ _ (λ e. or_claim_lands keyed o e))

module _ (env : Env) (input : AcquireInput) (w : World) (keyed : IsKeyed w.instances) where
  abbrev Good : Instance → World → Type 0
  Good = Assigned input (requested env input w)

  abbrev Bad : Error → World → Type 0
  Bad = Fails env input (requested env input w) w

  expiry_known :
      (o : Option ℕ)
      → Triple
          (λ s. s ≡ w)
          (λ t s.
            (t ≡ or_else o (env.num_answer w.calls date_now + input.duration_minutes * 60000))
            × Same w s)
          Bad
          (expiry_of env input.duration_minutes o)
  unfolding expiry_of ◌>>=◌ now ask
  expiry_known (some t) = Triple-pure t (λ s p. (refl, ap (λ (x : World). x.instances) p))
  expiry_known none = record {
    run = λ s p. (
      ap (λ (x : World). env.num_answer x.calls date_now + input.duration_minutes * 60000) p,
      ap (λ (x : World). x.instances) p,
    );
  }

  acquire_done : Triple (λ s. s ≡ w) Good Bad (acquire_instance env input)
  unfolding acquire_instance
  acquire_done =
      Triple-bind _ _ (expiry_known input.expires_at)
        λ t. Triple-fact _ _ (λ e. rw e (acquire_lands env input (requested env input w) w keyed))

-- When `acquireInstance` returns, its result and the row of it are an instance of the user and of the
-- template, no spare, in a status that can be used, and with an expiry no earlier than the one asked for.
-- When it throws, it has written no instance, but for a row of its own that is marked as failed. The
-- identifiers are distinct before.
pub acquire_instance-assigns :
    (env : Env) (input : AcquireInput) (w : World)
    → IsKeyed w.instances
    → Post
        (Assigned input (requested env input w))
        (Fails env input (requested env input w) w)
        (acquire_instance env input w).0
        (acquire_instance env input w).1
acquire_instance-assigns env input w keyed = (acquire_done env input w keyed).run w refl

-- ===== src/Orchestrator/Acquire/Claims.antt =====
-- What a claim of a warm instance does.
use mathlib.Core.Path.{subst}
use mathlib.Core.Bool.{false≢true}
use labforge.Base.{
  ℕ, String, ◌≡◌, ◌≢◌, refl, sym, ap, ◌∙◌, eq_refl, true, Option, none, some, List, find, arith,
  map, Option-cases, inl, inr, eq_iff, or_else, is_some,
}
use labforge.Exec.{Result, ok, ◌>>=◌}
use labforge.Data.{Instance}
use labforge.Data.Statuses.{is_ready}
use labforge.World.{World, Env}
use labforge.Store.{instance_key, update_instance, put_instance, emit_usage, now, ask}
use labforge.Table.{lookup, update, lookup-update, map-update}
use labforge.Nodes.Resolve.{nonempty}
use labforge.Frame.Keys.{Distinct, IsKeyed}
use labforge.Frame.Selected.{find_selected}
use labforge.Orchestrator.Acquire.{is_claimable, set_claimed, claim_row, claim_prewarm}

module _ (env : Env) (template_id user : String) (expires_at : ℕ) (node_ids : List String) where
  abbrev pub chosen : World → Option Instance
  chosen w = find (is_claimable template_id (nonempty node_ids)) w.instances

  pub claim_none :
      (w : World)
      → chosen w ≡ none
      → claim_prewarm env template_id user expires_at node_ids w ≡ (ok none, w)
  unfolding claim_prewarm ◌>>=◌
  claim_none w e = rw e (unfold claim_row in refl)

  pub claim_some :
      (w : World) (r : Instance)
      → chosen w ≡ some r
      → lookup instance_key r.id w.instances ≡ some r
      → ((claim_prewarm env template_id user expires_at node_ids w).0
          ≡ ok (some (set_claimed user expires_at r)))
        × ((claim_prewarm env template_id user expires_at node_ids w).1.instances
            ≡ update instance_key r.id (set_claimed user expires_at) w.instances)
  unfolding claim_prewarm ◌>>=◌
  claim_some w r e row =
      rw e (unfold claim_row update_instance put_instance emit_usage now ask in rw row (refl, refl))

-- The row of a claimed instance.
pub record IsClaimed (template_id user : String) (expires_at : ℕ) (w t : World) (i : Instance)
    : Type 0 where
  -- The spare as it was.
  pub spare : Instance
  pub was_row : lookup instance_key i.id w.instances ≡ some spare
  pub was_warm : spare.is_prewarm ≡ true
  pub was_ready : is_ready spare.status ≡ true
  pub same_template : i.template_id ≡ template_id
  pub is_claimed : i ≡ set_claimed user expires_at spare
  pub found : lookup instance_key i.id t.instances ≡ some i
  pub keyed : IsKeyed t.instances

module _ (template_id : String) (pinned : List String) (i : Instance) where
  claimable_template : is_claimable template_id pinned i ≡ true → i.template_id ≡ template_id
  claimable_template h = (eq_iff i.template_id template_id).0 (ground (arith, h))

  claimable_warm : is_claimable template_id pinned i ≡ true → i.is_prewarm ≡ true
  claimable_warm h = ground (arith, h)

  claimable_ready : is_claimable template_id pinned i ≡ true → is_ready i.status ≡ true
  claimable_ready h = ground (arith, h)

some_of_ok :
    (o : Option Instance) (i : Instance)
    → (r : Result (Option Instance)) → r ≡ ok o
    → r ≡ ok (some i)
    → o ≡ some i
some_of_ok o i r e h = cc

module _ (env : Env) (template_id user : String) (expires_at : ℕ) (node_ids : List String)
    (w : World) where
  IsClaimed-row :
      (i r : Instance)
      → IsKeyed w.instances
      → chosen env template_id user expires_at node_ids w ≡ some r
      → set_claimed user expires_at r ≡ i
      → IsClaimed template_id user expires_at w
          (claim_prewarm env template_id user expires_at node_ids w).1
          i
  IsClaimed-row i r keyed e q =
      let (row, passes) =
        find_selected (is_claimable template_id (nonempty node_ids)) w.instances r keyed e in
      let (res, after) = claim_some env template_id user expires_at node_ids w r e row in
      subst
        (IsClaimed template_id user expires_at w
          (claim_prewarm env template_id user expires_at node_ids w).1)
        q
        (record {
          spare = r;
          was_row = row;
          was_warm = claimable_warm template_id (nonempty node_ids) r passes;
          was_ready = claimable_ready template_id (nonempty node_ids) r passes;
          same_template = claimable_template template_id (nonempty node_ids) r passes;
          is_claimed = refl;
          found =
              ap (lookup instance_key r.id) after
              ∙ lookup-update instance_key r.id r.id (set_claimed user expires_at) w.instances
                  (λ x. refl)
              ∙ rw (eq_refl r.id, row);
          keyed =
              subst Distinct
                (sym (
                  ap (map instance_key) after
                  ∙ map-update instance_key r.id (set_claimed user expires_at) w.instances
                      (λ x. refl)))
                keyed;
        })

-- A claim that returns an instance has taken a ready spare of the template: the row has become that of the
-- user, with the new expiry, and is no spare any more. The identifiers are distinct before, and after.
pub claim_prewarm-claims :
    (env : Env) (template_id user : String) (expires_at : ℕ) (node_ids : List String) (w : World)
    (i : Instance)
    → IsKeyed w.instances
    → (claim_prewarm env template_id user expires_at node_ids w).0 ≡ ok (some i)
    → IsClaimed template_id user expires_at w
        (claim_prewarm env template_id user expires_at node_ids w).1
        i
claim_prewarm-claims env template_id user expires_at node_ids w i keyed h =
    elim (Option-cases (chosen env template_id user expires_at node_ids w)) [
      | inl n ↦ absurd (
          false≢true (
            ap is_some (
              some_of_ok none i _
                (ap (λ p. p.0) (claim_none env template_id user expires_at node_ids w n)) h)))
      | inr (r, e) ↦ IsClaimed-row env template_id user expires_at node_ids w i r keyed e (
          ap (λ o. or_else o i)
            (some_of_ok _ i _
              (claim_some env template_id user expires_at node_ids w r e
                (find_selected (is_claimable template_id (nonempty node_ids)) w.instances r keyed
                  e).0).0
              h))
    ]

-- Two claims, one after the other, never return the same instance, whoever claims it and for which
-- template. The identifiers are distinct before.
pub claim_prewarm-distinct :
    (env : Env) (a b user user' : String) (t t' : ℕ) (ns ns' : List String) (w : World)
    (i j : Instance)
    → IsKeyed w.instances
    → (claim_prewarm env a user t ns w).0 ≡ ok (some i)
    → (claim_prewarm env b user' t' ns' (claim_prewarm env a user t ns w).1).0 ≡ ok (some j)
    → i.id ≢ j.id
claim_prewarm-distinct env a b user user' t t' ns ns' w i j keyed h k same =
    let first = claim_prewarm-claims env a user t ns w i keyed h in
    let second =
      claim_prewarm-claims env b user' t' ns' (claim_prewarm env a user t ns w).1 j first.keyed k in
    let row : i ≡ second.spare =
      ap (λ o. or_else o i)
        (sym first.found
          ∙ ap (λ k. lookup instance_key k (claim_prewarm env a user t ns w).1.instances) same
          ∙ second.was_row) in
    false≢true (
      sym (ap (λ (x : Instance). x.is_prewarm) first.is_claimed)
      ∙ ap (λ (x : Instance). x.is_prewarm) row
      ∙ second.was_warm)

-- ===== src/Orchestrator/Provision/Landing.antt =====
-- The outcomes of `provisionNew` as a whole.
use mathlib.Core.Path.{subst}
use labforge.Base.{String, ◌≡◌, ◌⊎◌, inl, inr, refl, sym, ap, ◌∙◌, false, Option}
use labforge.Exec.{Error, try_catch, ◌>>=◌}
use labforge.Exec.Moves.{Moves, Moves-lift, Moves-try_catch, Moves-pure}
use labforge.Exec.Triple.{
  Post, Triple, Triple-bind, Triple-try_catch, Triple-raise, Triple-keep, Triple-weaken,
  Triple-fact, Triple-Total,
}
use labforge.Data.{Instance, Node, Spec}
use labforge.World.{World, M, Env}
use labforge.Store.{find_instance, create_instance}
use labforge.Frame.Rows.{same_rows}
use labforge.Frame.Leaves.{leaf_rules, ask-rows, now-rows, fresh-rows, runtime_of_node-rows}
use labforge.Frame.Placement.{choose_node-rows}
use labforge.Frame.Added.{
  At, Added, At-same, At-Added, Triple-same, Triple-update, Triple-create, with_row, clash,
}
use labforge.Orchestrator.Hosts.{runtime_of_node}
use labforge.Orchestrator.Destroy.{best_effort}
use labforge.Orchestrator.Destroy.Outcome.{best_effort-Total}
use labforge.Orchestrator.Provision.{
  ProvisionInput, start_lab, clean_row, abandon, set_failed, provision_new,
}
use labforge.Orchestrator.Provision.Quiet.{clean_row-rows, await_rdp-rows}
use labforge.Orchestrator.Provision.Outcome.{
  IsPending, IsStarted, IsFailed, Pending, Abandoned, Returned, prepare_overlay-keeps,
  record_lab-returns,
}

module _ (env : Env) (input : ProvisionInput) (id : String) (w : World) where
  start_lab-returns :
      (spec : Spec) (subdomain : String) (volume : Option String) (host : Option Node)
      (inst : Instance)
      → inst.id ≡ id
      → Triple
          (Pending env input id w)
          (Returned env input id w)
          (λ _. Pending env input id w)
          (start_lab env input spec subdomain volume host inst)
  unfolding start_lab
  start_lab-returns spec subdomain volume host inst e = rw e (
      Triple-bind _ _ (prepare_overlay-keeps env input id w host spec _) λ binds.
        Triple-bind _ _ (Triple-same id w _ _ (runtime_of_node-rows env host)) λ rt.
          Triple-bind _ _ (Triple-same id w _ _ (ask-rows _ _)) λ res.
            Triple-bind _ _ (Triple-same id w _ _ (await_rdp-rows env host _))
              λ _. record_lab-returns env input id w host res _)

  clean_up-rows :
      (host : Option Node)
      → Moves same_rows (
          best_effort (
            runtime_of_node env host >>= λ rt.
            find_instance id >>= λ cur. clean_row env host rt cur))
  unfolding best_effort
  clean_up-rows host =
      Moves-try_catch _ _ (search (leaf_rules, runtime_of_node-rows, clean_row-rows))
        (λ e. Moves-pure tt)

  abandon-fails :
      (host : Option Node) (inst : Instance) (e : Error)
      → inst.id ≡ id
      → Triple
          (Pending env input id w)
          (Returned env input id w)
          (Abandoned env input id w)
          (abandon env host inst.id e)
  unfolding abandon
  abandon-fails host inst e same = rw same (
      Triple-bind _ _
        (Triple-Total _ (best_effort-Total _)
          (λ s. At-same id w (IsPending input) s _ ((clean_up-rows host).at s)))
        λ _.
          Triple-bind _ _
            (Triple-update id w (IsPending input) (IsFailed input) _ set_failed (λ r. refl)
              (λ r h. (h.0, refl, h.1)))
            λ a. Triple-raise e (λ s p. p.1))

  lab_lands :
      (spec : Spec) (subdomain : String) (volume : Option String) (host : Option Node)
      (inst : Instance)
      → inst.id ≡ id
      → Triple (Pending env input id w) (Returned env input id w) (Abandoned env input id w) (
          try_catch
            (start_lab env input spec subdomain volume host inst)
            (abandon env host inst.id))
  lab_lands spec subdomain volume host inst e =
      Triple-try_catch _ _ (start_lab-returns spec subdomain volume host inst e)
        λ x. abandon-fails host inst x e

-- The table of instances is that of `w`.
abbrev pub Same : World → World → Type 0
Same w s = s.instances ≡ w.instances

-- The lab that is returned has been added, and is ready.
abbrev pub Landed : ProvisionInput → World → Instance → World → Type 0
Landed input w a t = IsStarted input a × Added a.id w (IsStarted input) t

-- Nothing was added, or a row that is marked as failed.
abbrev pub Refused : ProvisionInput → World → World → Type 0
Refused input w t = (t.instances ≡ w.instances) ⊎ ((id : String) × Added id w (IsFailed input) t)

module _ (env : Env) (input : ProvisionInput) (w : World) where
  Triple-leaf :
      {A : Type 0} (m : M A) → Moves same_rows m → Triple (Same w) (λ _. Same w) (λ _. Same w) m
  Triple-leaf m h = Triple-keep m (λ s p. h.at s ∙ p) (λ a s p. p) (λ e s p. p)

  Landed-row :
      (r a : Instance) (t : World)
      → clash r w.instances ≡ false
      → Returned env input r.id (with_row w r) a t
      → Landed input w a t
  Landed-row r a t c h = (
    h.0.1,
    subst (λ k. Added k w (IsStarted input) t) (sym h.0.0) (At-Added w r (IsStarted input) t c h.1),
  )

  row_lands :
      (spec : Spec) (subdomain : String) (volume : Option String) (host : Option Node)
      (r inst : Instance)
      → (inst ≡ r) × (clash r w.instances ≡ false)
      → Triple
          (At r.id (with_row w r) (IsPending input))
          (Landed input w)
          (λ _. Refused input w)
          (try_catch
            (start_lab env input spec subdomain volume host inst)
            (abandon env host inst.id))
  row_lands spec subdomain volume host r inst (e, c) =
      Triple-weaken _ (λ s p. p) (λ a t h. Landed-row r a t c h)
        (λ x t h. inr (r.id, At-Added w r (IsFailed input) t c h))
        (lab_lands env input r.id (with_row w r) spec subdomain volume host inst
          (ap (λ (i : Instance). i.id) e))

  create_lands :
      (spec : Spec) (subdomain : String) (volume : Option String) (host : Option Node)
      (r : Instance)
      → IsPending input r
      → Triple
          (Same w)
          (Landed input w)
          (λ _. Refused input w)
          (create_instance r >>= λ inst.
            try_catch
              (start_lab env input spec subdomain volume host inst)
              (abandon env host inst.id))
  create_lands spec subdomain volume host r q =
      Triple-bind _ _
        (Triple-weaken _ (λ s p. p) (λ a s p. p) (λ e s p. inl p)
          (Triple-create w r (IsPending input) q))
        λ inst. Triple-fact _ _ (row_lands spec subdomain volume host r inst)

  leaf-Refused :
      {A : Type 0} (m : M A)
      → Moves same_rows m
      → Triple (Same w) (λ _. Same w) (λ _. Refused input w) m
  leaf-Refused m h = Triple-weaken m (λ s p. p) (λ a s p. p) (λ e s p. inl p) (Triple-leaf m h)

  pub provision_lands :
      Triple (Same w) (Landed input w) (λ _. Refused input w) (provision_new env input)
  unfolding provision_new
  provision_lands = Triple-bind _ _ (leaf-Refused _ (Moves-lift _)) λ spec.
      Triple-bind _ _ (leaf-Refused _ (fresh-rows env)) λ subdomain.
        Triple-bind _ _ (leaf-Refused _ (choose_node-rows env input _)) λ host.
          Triple-bind _ _ (leaf-Refused _ (fresh-rows env)) λ id.
            Triple-bind _ _ (leaf-Refused _ (now-rows env))
              λ t. create_lands spec subdomain _ host _ ((refl, refl, refl, refl, refl), refl)

-- When `provisionNew` returns, it has added the row of its result: ready, for the tenant, template and
-- user of the request, with the requested expiry, and with its container recorded. When it throws, it has
-- added no row, or one for the request that is marked as failed and records no container. Every other
-- row is as it was.
pub provision_new-lands :
    (env : Env) (input : ProvisionInput) (w : World)
    → Post
        (Landed input w)
        (λ _. Refused input w)
        (provision_new env input w).0
        (provision_new env input w).1
provision_new-lands env input w = (provision_lands env input w).run w refl

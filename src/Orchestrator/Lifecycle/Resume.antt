-- ===== src/Orchestrator/Lifecycle/Resume.antt =====
-- What resuming a lab leaves behind.
use mathlib.Core.Bool.{false≢true}
use labforge.Base.{
  ℕ, String, ◌≡◌, ◌⊎◌, inl, inr, refl, sym, ap, ◌∙◌, Bool, true, false, Option, none, some,
  if◌then◌else◌,
}
use labforge.Exec.{Error, no_runtime_id, ok, err, or_fail, pure, lift, ◌>>=◌}
use labforge.Exec.Laws.{Total, Total-try_catch, Total-pure}
use labforge.Exec.Moves.{Moves}
use labforge.Exec.Triple.{
  Post, Triple, Triple-bind, Triple-pure, Triple-fact, Triple-weaken, Triple-keep, Triple-Total,
}
use labforge.Data.{Instance, Scheme, Spec, ready, UsageEvent, instance_resumed}
use labforge.World.{World, M, Env, Runtime, on_runtime, resume}
use labforge.Store.{instance_key, ask, now, find_template, emit_usage}
use labforge.Table.{lookup, key-lookup}
use labforge.Nodes.Runtimes.{truthy}
use labforge.Frame.Rows.{only_row, same_rows}
use labforge.Frame.Leaves.{
  leaf_rules, ask-rows, emit_usage-rows, find_template-rows, runtime_for-rows,
  regenerate_mapping-rows,
}
use labforge.Frame.Added.{At, At-same, Triple-same, Triple-update}
use labforge.Orchestrator.Destroy.Outcome.{found_row}
use labforge.Orchestrator.Viewer.{safe_parse_spec}
use labforge.Orchestrator.Hosts.{runtime_for}
use labforge.Orchestrator.Sync.{Synced, sync_instance_upstream}
use labforge.Orchestrator.Sync.Outcome.{Publishes, Before, sync_runtime-After}
use labforge.Orchestrator.Lifecycle.{
  about_instance, scheme_of, set_ready, resync_guacamole, store_ready, wait_upstream,
  resume_instance,
}
use labforge.Orchestrator.Lifecycle.Quiet.{wait_upstream-rows}

-- Ready, awake, and at the address that `a` names.
abbrev pub IsAwake : Option ℕ → Option String → Instance → Type 0
IsAwake port upstream r =
    (r.status ≡ ready) × (r.suspended_at ≡ none) × (r.host_port ≡ port) × (r.upstream ≡ upstream)

module _ (env : Env) (inst : Instance) (w : World) where
  -- What is returned is awake, and so is its row.
  abbrev pub Awake : Instance → World → Type 0
  Awake i s =
      At inst.id w (IsAwake i.host_port i.upstream) s × (i.status ≡ ready) × (i.suspended_at ≡ none)

  -- As it was, or ready already.
  abbrev pub Unresumed : Error → World → Type 0
  Unresumed e s = At inst.id w (λ r. (r ≡ inst) ⊎ (r.status ≡ ready)) s

  resync-rows : (s : Synced) (i : Instance) → Moves same_rows (resync_guacamole env s i)
  unfolding resync_guacamole
  resync-rows s i = search (leaf_rules, regenerate_mapping-rows)

  if-Total : (b : Bool) (m n : M (Unit {0})) → Total m → Total n → Total (if b then m else n)
  if-Total true m n hm hn = hm
  if-Total false m n hm hn = hn

  resync-Total : (s : Synced) (i : Instance) → Total (resync_guacamole env s i)
  unfolding resync_guacamole
  resync-Total s i = if-Total _ _ _ (Total-try_catch _) Total-pure

  emit-Total : (e : ℕ → UsageEvent) → Total (emit_usage env e)
  unfolding emit_usage now ask ◌>>=◌
  emit-Total e s = refl

  -- The clock does not throw.
  now-keeps :
      (Q : Instance → Type 0) (E : Error → World → Type 0)
      → Triple (At inst.id w Q) (λ _. At inst.id w Q) E (now env)
  unfolding now ask
  now-keeps Q E = record { run = λ s p. At-same inst.id w Q s _ refl p }

  Awake-as :
      (a : Synced) (i : Instance) (s : World)
      → IsAwake a.host_port a.upstream i
      → At inst.id w (IsAwake a.host_port a.upstream) s
      → Awake i s
  Awake-as a i s h p = (
    record {
      others = p.others;
      row = p.row;
      found = p.found;
      holds = (p.holds.0, p.holds.1, p.holds.2 ∙ sym h.2, p.holds.3 ∙ sym h.3);
    },
    h.0,
    h.1,
  )

  store_ready-Awake :
      (spec : Option Spec) (rt : Runtime)
      → Triple (Before env inst w) Awake Unresumed (store_ready env inst spec rt)
  unfolding store_ready sync_instance_upstream
  store_ready-Awake spec rt =
      Triple-bind _ _
        (Triple-weaken _ (λ s p. p) (λ a s p. p) (λ e s p. absurd (false≢true p))
          (sync_runtime-After env inst w rt _ _ (truthy inst.runtime_id)))
        λ a. Triple-bind _ _ (now-keeps (Publishes a) Unresumed) λ t.
          Triple-bind _ _
            (Triple-update inst.id w (Publishes a) (IsAwake a.host_port a.upstream) Unresumed
              (set_ready t a) (λ r. refl) (λ r h. (refl, refl, refl, refl)))
            λ i. Triple-fact _ _ λ fine.
              Triple-bind _ _
                (Triple-Total _ (resync-Total a i) (λ s.
                  At-same inst.id w (IsAwake a.host_port a.upstream) s _ ((resync-rows a i).at s)))
                λ _. Triple-pure i (λ s p. Awake-as a i s fine.1 p)

  keeps_Unresumed :
      {A : Type 0} (m : M A)
      → Moves same_rows m
      → Triple (Before env inst w) (λ _. Before env inst w) Unresumed m
  keeps_Unresumed m h =
      Triple-weaken m (λ s p. p) (λ a s p. p)
        (λ e s p. record { others = p.others; row = p.row; found = p.found; holds = inl p.holds })
        (Triple-same inst.id w (λ r. r ≡ inst) m h)

  finish-Awake :
      (i : Instance) (rt : Runtime) (id : String) (ms : ℕ) (scheme : Scheme)
      → Triple (Awake i) Awake Unresumed (
          emit_usage env (about_instance instance_resumed i) >>= λ _.
          wait_upstream env rt id (truthy i.upstream) ms scheme >>= λ _. pure i)
  finish-Awake i rt id ms scheme =
      Triple-bind _ _
        (Triple-Total {P = Awake i} _ (emit-Total (about_instance instance_resumed i)) (λ s p. (
          At-same inst.id w (IsAwake i.host_port i.upstream) s _ ((emit_usage-rows env _).at s) p.0,
          p.1,
          p.2,
        )))
        λ _.
          Triple-bind _ _
            (Triple-keep {Q = λ _. Awake i} _
              (λ s p. (
                At-same inst.id w (IsAwake i.host_port i.upstream) s _
                    ((wait_upstream-rows env rt id (truthy i.upstream) ms scheme).at s) p.0,
                p.1,
                p.2,
              ))
              (λ b s p. p)
              (λ e s p. record {
                others = p.0.others;
                row = p.0.row;
                found = p.0.found;
                holds = inr p.0.holds.0;
              }))
            λ _. Triple-pure i (λ s p. p)

lift-ok :
    {A B : Type 0} {P : World → Type 0} {Q : B → World → Type 0} {E : Error → World → Type 0}
    (a : A) (f : A → M B)
    → Triple P Q E (f a)
    → Triple P Q E (lift (ok a) >>= f)
unfolding lift ◌>>=◌
lift-ok a f h = record { run = h.run }

lift-err :
    {A B : Type 0} {P : World → Type 0} {Q : B → World → Type 0} {E : Error → World → Type 0}
    (e : Error) (f : A → M B)
    → ((s : World) → P s → E e s)
    → Triple P Q E (lift (err e) >>= f)
unfolding lift ◌>>=◌
lift-err e f h = record { run = h }

module _ (env : Env) (inst : Instance) (w : World) (ms : ℕ) where
  abbrev start_container : String → M Instance
  start_container id = runtime_for env inst.node_id >>= λ runtime.
      ask env.unit_answer (on_runtime runtime (resume id)) >>= λ _.
      find_template inst.template_id >>= λ template.
      store_ready env inst (safe_parse_spec env template) runtime >>= λ updated.
      emit_usage env (about_instance instance_resumed updated) >>= λ _.
      wait_upstream env runtime id (truthy updated.upstream) ms
        (scheme_of (safe_parse_spec env template))
      >>= λ _. pure updated

  start-Awake :
      (id : String)
      → Triple (Before env inst w) (Awake env inst w) (Unresumed env inst w) (start_container id)
  start-Awake id =
      Triple-bind _ _ (keeps_Unresumed env inst w _ (runtime_for-rows env inst.node_id)) λ rt.
        Triple-bind _ _ (keeps_Unresumed env inst w _ (ask-rows _ _)) λ _.
          Triple-bind _ _ (keeps_Unresumed env inst w _ (find_template-rows inst.template_id))
            λ template.
              Triple-bind _ _ (store_ready-Awake env inst w (safe_parse_spec env template) rt)
                λ i. finish-Awake env inst w i rt id ms (scheme_of (safe_parse_spec env template))

  unchanged-Unresumed : (e : Error) (s : World) → Before env inst w s → Unresumed env inst w e s
  unchanged-Unresumed e s p = record {
    others = p.others;
    row = p.row;
    found = p.found;
    holds = inl p.holds;
  }

  with_container :
      (o : Option String)
      → Triple
          (Before env inst w)
          (Awake env inst w)
          (Unresumed env inst w)
          (lift (or_fail no_runtime_id o) >>= start_container)
  with_container none = lift-err no_runtime_id start_container (unchanged-Unresumed no_runtime_id)
  with_container (some id) = lift-ok id start_container (start-Awake id)

-- When `resumeInstance` returns, its result and the row are ready and not suspended, and the row has the
-- port and the upstream of the result. When it throws, the row is as it was, or ready already. No other row
-- is written.
pub resume_instance-Awake :
    (env : Env) (id : String) (ms : ℕ) (w : World) (r : Instance)
    → lookup instance_key id w.instances ≡ some r
    → Post
        (Awake env r w)
        (Unresumed env r w)
        (resume_instance env id ms w).0
        (resume_instance env id ms w).1
unfolding resume_instance
resume_instance-Awake env id ms w r row = rw (found_row id _ w (some r) row) (
    (lift-ok r _ (with_container env r w ms (truthy r.runtime_id))).run w (record {
      others = (only_row r.id).stay w;
      row = r;
      found =
          ap (λ k. lookup instance_key k w.instances) (key-lookup instance_key id w.instances r row)
          ∙ row;
      holds = refl;
    }))

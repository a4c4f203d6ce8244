-- ===== src/Orchestrator/Lifecycle/Outcome.antt =====
-- What suspending and resuming leave behind.
use mathlib.Core.Path.{subst}
use labforge.Base.{
  ℕ, String, ◌≡◌, refl, sym, ap, ◌∙◌, Bool, true, false, Option, none, some, arith, if◌then◌else◌,
  is_some, ◌&&◌, not,
}
use labforge.Exec.{ok, pure, ◌>>=◌}
use labforge.Exec.Triple.{Post, Triple, Triple-bind, Triple-pure, Triple-fact, Triple-Total}
use labforge.Data.{Instance, UsageEvent, instance_paused}
use labforge.Data.Statuses.{is_stopped}
use labforge.World.{World, Env, on_runtime, suspend}
use labforge.Store.{instance_key, ask, now, update_instance, emit_usage}
use labforge.Table.{lookup, key-lookup}
use labforge.Nodes.Runtimes.{truthy}
use labforge.Frame.Rows.{only_row}
use labforge.Frame.Leaves.{ask-rows, now-rows, emit_usage-rows, runtime_for-rows}
use labforge.Frame.Added.{At, At-same, Triple-same, Triple-update}
use labforge.Orchestrator.Destroy.Outcome.{found_row}
use labforge.Orchestrator.Hosts.{runtime_for}
use labforge.Orchestrator.Lifecycle.{
  about_instance, set_paused, suspend_running, suspend_runtime, suspend_row, suspend_instance,
}

-- Stopped, or without a container.
abbrev pub IsAsleep : Instance → Type 0
IsAsleep r = (is_some (truthy r.runtime_id) && not (is_stopped r.status)) ≡ false

module _ (env : Env) (inst : Instance) (w : World) where
  abbrev Read : World → Type 0
  Read = At inst.id w (λ r. r ≡ inst)

  abbrev Asleep : (Unit {0}) → World → Type 0
  Asleep _ = At inst.id w IsAsleep

  Asleep-already : IsAsleep inst → (s : World) → Read s → Asleep tt s
  Asleep-already h s p = record {
    others = p.others;
    row = p.row;
    found = p.found;
    holds = subst IsAsleep (sym p.holds) h;
  }

  paused-IsAsleep : (t : ℕ) (r : Instance) → IsAsleep (set_paused t r)
  paused-IsAsleep t r = ground arith

  running-Asleep :
      (id : String) (b : Bool)
      → is_stopped inst.status ≡ b
      → Triple Read Asleep
          (λ _. Read)
          (if b
            then pure tt
            else (runtime_for env inst.node_id >>= λ runtime.
                ask env.unit_answer (on_runtime runtime (suspend id)) >>= λ _. now env >>= λ t.
                update_instance inst.id (set_paused t) >>= λ _.
                emit_usage env (about_instance instance_paused inst)))
  running-Asleep id true e = Triple-pure tt (Asleep-already (ground (arith, e)))
  running-Asleep id false e =
      Triple-bind _ _ (Triple-same inst.id w _ _ (runtime_for-rows env inst.node_id)) λ rt.
        Triple-bind _ _ (Triple-same inst.id w _ _ (ask-rows _ _)) λ _.
          Triple-bind _ _ (Triple-same inst.id w _ _ (now-rows env)) λ t.
            Triple-bind _ _
              (Triple-update inst.id w (λ r. r ≡ inst) IsAsleep (λ _. Read) (set_paused t)
                (λ r. refl) (λ r _. paused-IsAsleep t r))
              λ a. Triple-fact _ _ λ _.
                Triple-Total _ (λ s. emit_usage-returns (about_instance instance_paused inst) s)
                  (λ s. At-same inst.id w IsAsleep s _ ((emit_usage-rows env _).at s))
    where
      emit_usage-returns : (e : ℕ → UsageEvent) (s : World) → (emit_usage env e s).0 ≡ ok tt
      emit_usage-returns e s = unfold emit_usage now ask ◌>>=◌ in refl

  runtime-Asleep :
      Triple Read Asleep (λ _. Read) (suspend_runtime env inst (truthy inst.runtime_id))
  unfolding suspend_runtime suspend_running
  runtime-Asleep = by_id (truthy inst.runtime_id) refl
    where
      by_id :
          (o : Option String)
          → truthy inst.runtime_id ≡ o
          → Triple Read Asleep (λ _. Read) (suspend_runtime env inst o)
      by_id none e =
          Triple-pure tt (Asleep-already (ap (λ o. is_some o && not (is_stopped inst.status)) e))
      by_id (some id) e = running-Asleep id (is_stopped inst.status) refl

-- When `suspendInstance` returns, the row is paused, terminated or failed, or has no container; when it
-- throws, the row is as it was. No other row is written.
pub suspend_instance-sleeps :
    (env : Env) (id : String) (w : World) (r : Instance)
    → lookup instance_key id w.instances ≡ some r
    → Post
        (λ _ t. At r.id w IsAsleep t)
        (λ e t. At r.id w (λ x. x ≡ r) t)
        (suspend_instance env id w).0
        (suspend_instance env id w).1
unfolding suspend_instance suspend_row
suspend_instance-sleeps env id w r row = rw (found_row id (suspend_row env) w (some r) row) (
    (runtime-Asleep env r w).run w (record {
      others = (only_row r.id).stay w;
      row = r;
      found =
          ap (λ k. lookup instance_key k w.instances) (key-lookup instance_key id w.instances r row)
          ∙ row;
      holds = refl;
    }))

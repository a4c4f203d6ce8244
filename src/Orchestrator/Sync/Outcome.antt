-- ===== src/Orchestrator/Sync/Outcome.antt =====
-- What `syncInstanceUpstream` returns and stores.
use mathlib.Core.Bool.{false≢true}
use labforge.Base.{
  ℕ, String, ◌≡◌, refl, ap, ◌∙◌, Bool, true, false, not, ◌&&◌, Option, none, some, if◌then◌else◌,
}
use labforge.Exec.{Error, pure, ◌>>=◌}
use labforge.Exec.Triple.{Post, Triple, Triple-bind, Triple-pure, Triple-try_catch, Triple-weaken}
use labforge.Data.{Instance, Inspection}
use labforge.World.{World, Env, Runtime}
use labforge.Store.{instance_key, update_instance}
use labforge.Table.{lookup}
use labforge.Nodes.Runtimes.{truthy}
use labforge.Frame.Rows.{only_row}
use labforge.Frame.Leaves.{ask-rows}
use labforge.Frame.Added.{At, Triple-same, Triple-update}
use labforge.Orchestrator.Sync.{
  Synced, nonzero, published, unchanged, Drift, drift, persist, report, write_drift,
  apply_inspection, sync_runtime, sync_instance_upstream,
}

-- The row publishes what was returned.
abbrev pub Publishes : Synced → Instance → Type 0
Publishes a r =
    (r.host_port ≡ a.host_port) × (r.upstream ≡ a.upstream) × (r.rdp_host_port ≡ a.rdp_host_port)

-- A drift of `inst` that leaves the RDP port alone where it has not moved.
abbrev Fits : Instance → Drift → Type 0
Fits inst d = (if d.rdp_drifted then d.next_rdp else inst.rdp_host_port) ≡ d.next_rdp

module _ (env : Env) (inst : Instance) (w : World) where
  abbrev pub Before : World → Type 0
  Before = At inst.id w (λ r. r ≡ inst)

  abbrev pub After : Synced → World → Type 0
  After a = At inst.id w (Publishes a)

  abbrev pub Never : Error → World → Type 0
  Never e s = false ≡ true

  unchanged-Publishes : (s : World) → Before s → After (unchanged inst) s
  unchanged-Publishes s h = record {
    others = h.others;
    row = h.row;
    found = h.found;
    holds = (
      ap (λ (r : Instance). r.host_port) h.holds,
      ap (λ (r : Instance). r.upstream) h.holds,
      ap (λ (r : Instance). r.rdp_host_port) h.holds,
    );
  }

  persisted :
      (d : Drift) (r : Instance) → Fits inst d → r ≡ inst → Publishes (report inst d) (persist d r)
  persisted d r f e = (
    ap (λ (x : Instance). if d.http_drifted then d.next_host_port else x.host_port) e,
    ap (λ (x : Instance). if d.http_drifted then d.next_upstream else x.upstream) e,
    ap (λ (x : Instance). if d.rdp_drifted then d.next_rdp else x.rdp_host_port) e ∙ f,
  )

  write_drift-After : (d : Drift) → Fits inst d → Triple Before After Never (write_drift inst d)
  unfolding write_drift
  write_drift-After d f = by_test (not d.http_drifted && not d.rdp_drifted)
    where
      by_test :
          (b : Bool)
          → Triple Before After Never (
              if b
              then pure (unchanged inst)
              else (update_instance inst.id (persist d) >>= λ _. pure (report inst d)))
      by_test true = Triple-pure _ unchanged-Publishes
      by_test false =
          Triple-bind _ _
            (Triple-update inst.id w (λ r. r ≡ inst) (Publishes (report inst d)) Never (persist d)
              (λ r. refl) (λ r e. persisted d r f e))
            λ r. Triple-pure _ (λ s p. p.1)

  drift-Fits :
      (info : Inspection) (primary rdp : Option ℕ) → Fits inst (drift inst info primary rdp)
  unfolding drift
  drift-Fits info primary rdp =
      choice (drift inst info primary rdp).rdp_drifted
        (nonzero (published (nonzero rdp) info.all_host_ports)) inst.rdp_host_port
    where
      choice :
          (b : Bool) (x y : Option ℕ)
          → (if b then (if b then x else y) else y) ≡ (if b then x else y)
      choice true x y = refl
      choice false x y = refl

  apply_inspection-After :
      (primary rdp : Option ℕ) (info : Option Inspection)
      → Triple Before After Never (apply_inspection inst primary rdp info)
  unfolding apply_inspection
  apply_inspection-After primary rdp none = Triple-pure _ unchanged-Publishes
  apply_inspection-After primary rdp (some info) = write_drift-After _ (drift-Fits info primary rdp)

  pub sync_runtime-After :
      (rt : Runtime) (primary rdp : Option ℕ) (id : Option String)
      → Triple Before After Never (sync_runtime env inst rt primary rdp id)
  unfolding sync_runtime
  sync_runtime-After rt primary rdp none = Triple-pure _ unchanged-Publishes
  sync_runtime-After rt primary rdp (some id) =
      Triple-try_catch _ _
        (Triple-bind _ _ (Triple-same inst.id w (λ r. r ≡ inst) _ (ask-rows _ _)) λ info.
          Triple-weaken _ (λ s p. p) (λ a s p. p) (λ e s p. absurd (false≢true p))
            (apply_inspection-After primary rdp info))
        λ e. Triple-pure _ unchanged-Publishes

-- `syncInstanceUpstream` never throws, and the ports and the upstream that it returns are those that the
-- row holds afterwards, whether the inspection failed, found nothing, or found a drift. No other row is
-- written. The row is before the call what the caller has read.
pub sync-Publishes :
    (env : Env) (inst : Instance) (rt : Runtime) (primary rdp : Option ℕ) (w : World)
    → lookup instance_key inst.id w.instances ≡ some inst
    → Post
        (λ a t. At inst.id w (Publishes a) t)
        (λ e t. false ≡ true)
        (sync_instance_upstream env inst rt primary rdp w).0
        (sync_instance_upstream env inst rt primary rdp w).1
unfolding sync_instance_upstream
sync-Publishes env inst rt primary rdp w row =
    (sync_runtime-After env inst w rt primary rdp (truthy inst.runtime_id)).run w
      (record { others = (only_row inst.id).stay w; row = inst; found = row; holds = refl })

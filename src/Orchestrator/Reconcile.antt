-- ===== src/Orchestrator/Reconcile.antt =====
-- `reconcileActiveInstanceNetworkingDrift`: one pass over the active instances.
use labforge.Base.{
  ℕ, suc, Bool, true, false, List, [], ◌∷◌, ◌&&◌, ◌||◌, not, if◌then◌else◌, filter, length, is_some,
  num_option_eq, text_option_eq,
}
use labforge.Exec.{pure, gets, try_catch, ◌>>=◌, ◌>>◌}
use labforge.Data.{Instance}
use labforge.Data.Statuses.{is_reusable}
use labforge.World.{M, Env}
use labforge.Store.{find_template}
use labforge.Guacamole.{regenerate_mapping}
use labforge.Nodes.Runtimes.{truthy}
use labforge.Orchestrator.Viewer.{safe_parse_spec, primary_port, rdp_port}
use labforge.Orchestrator.Hosts.{runtime_for}
use labforge.Orchestrator.Sync.{Synced, sync_instance_upstream}

-- `runtimeId: { not: null }`, and a status among the five that the query lists.
abbrev pub is_active : Instance → Bool
is_active i = is_some i.runtime_id && is_reusable i.status

abbrev pub changed_host : Synced → Instance → Bool
changed_host s i =
    not (num_option_eq s.host_port i.host_port) || not (text_option_eq s.upstream i.upstream)

-- The two variables of the loop.
pub record Tally : Type 0 where
  pub drifted : ℕ
  pub needs_guac_resync : Bool

abbrev pub count_row : Synced → Instance → Tally → Tally
count_row s i t = record {
  drifted = if changed_host s i || s.rdp_drifted then suc t.drifted else t.drifted;
  needs_guac_resync = t.needs_guac_resync || (s.rdp_drifted && is_some (truthy i.guacamole_user));
}

unfoldable pub reconcile_row : Env → Instance → Tally → M Tally
reconcile_row env inst tally = do
  template ← find_template inst.template_id
  let spec = safe_parse_spec env template
  runtime ← runtime_for env inst.node_id
  synced ← sync_instance_upstream env inst runtime (primary_port spec) (rdp_port spec)
  pure (count_row synced inst tally)

unfoldable pub reconcile_rows : Env → List Instance → Tally → M Tally
reconcile_rows env [] tally = pure tally
reconcile_rows env (i ∷ is) tally = reconcile_row env i tally >>= λ t. reconcile_rows env is t

pub record Reconciled : Type 0 where
  pub checked : ℕ
  pub drifted : ℕ
  pub guacamole_resynced : Bool

unfoldable pub resync_once : Env → Bool → M Bool
resync_once env false = pure false
resync_once env true = try_catch (do regenerate_mapping env; pure true) (λ _. pure false)

unfoldable pub reconcile_active_instance_networking_drift : Env → M Reconciled
reconcile_active_instance_networking_drift env = do
  rows ← gets (λ w. filter is_active w.instances)
  tally ← reconcile_rows env rows (record { drifted = 0; needs_guac_resync = false })
  resynced ← resync_once env tally.needs_guac_resync
  pure (record { checked = length rows; drifted = tally.drifted; guacamole_resynced = resynced })

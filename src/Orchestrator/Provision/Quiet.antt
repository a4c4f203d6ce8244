-- ===== src/Orchestrator/Provision/Quiet.antt =====
-- The steps of `provisionNew` that write no instance, and those that cannot throw.
use labforge.Base.{ℕ, String, refl, Bool, true, false, Option, none, some}
use labforge.Exec.{pure, ◌>>=◌}
use labforge.Exec.Laws.{Total, Total-pure}
use labforge.Exec.Moves.{Moves}
use labforge.Data.{Instance, Node}
use labforge.World.{Env, Runtime}
use labforge.Store.{ask, now, emit_usage}
use labforge.Frame.Rows.{same_rows}
use labforge.Frame.Leaves.{leaf_rules, rm_overlay_dir-rows}
use labforge.Orchestrator.Destroy.Outcome.{best_effort-Total}
use labforge.Orchestrator.Provision.{
  await_rdp, sync_guacamole, announce, destroy_recorded, remove_recorded, clean_row,
}

module _ (env : Env) where
  pub destroy_recorded-rows :
      (rt : Runtime) (id : Option String) → Moves same_rows (destroy_recorded env rt id)
  unfolding destroy_recorded
  destroy_recorded-rows rt none = search leaf_rules
  destroy_recorded-rows rt (some id) = search leaf_rules

  pub remove_recorded-rows :
      (host : Option Node) (dir : Option String) → Moves same_rows (remove_recorded env host dir)
  unfolding remove_recorded
  remove_recorded-rows host none = search leaf_rules
  remove_recorded-rows host (some dir) = search (leaf_rules, rm_overlay_dir-rows)

  pub clean_row-rows :
      (host : Option Node) (rt : Runtime) (r : Option Instance)
      → Moves same_rows (clean_row env host rt r)
  unfolding clean_row
  clean_row-rows host rt none = search leaf_rules
  clean_row-rows host rt (some r) = search (leaf_rules, destroy_recorded-rows, remove_recorded-rows)

  pub await_rdp-rows :
      (host : Option Node) (port : Option ℕ) → Moves same_rows (await_rdp env host port)
  unfolding await_rdp
  await_rdp-rows host none = search leaf_rules
  await_rdp-rows host (some port) = search leaf_rules

  pub sync_guacamole-Total :
      (b : Bool) (id : String) (port : Option ℕ) → Total (sync_guacamole env b id port)
  unfolding sync_guacamole
  sync_guacamole-Total false id (some port) = best_effort-Total _
  sync_guacamole-Total false id none = Total-pure
  sync_guacamole-Total true id port = Total-pure

  pub announce-Total : (b : Bool) (i : Instance) → Total (announce env b i)
  unfolding emit_usage ◌>>=◌ now ask
  announce-Total true i s = unfold pure in refl
  announce-Total false i s = refl

  pub announce-rows : (b : Bool) (i : Instance) → Moves same_rows (announce env b i)
  announce-rows true i = search leaf_rules
  announce-rows false i = search leaf_rules

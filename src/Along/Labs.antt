-- ===== src/Along/Labs.antt =====
-- The operations that make an instance: `provisionNew` and `acquireInstance`.
use labforge.Base.{ℕ, String, refl, Bool, true, false, Option, none, some, List}
use labforge.Exec.{Error}
use labforge.Exec.Moves.{Guarantee, Moves, Moves-bind, Moves-if, Moves-pure, Moves-raise}
use labforge.Data.{Instance, Spec, Node, ProvisionResult}
use labforge.World.{World, Env, Runtime}
use labforge.Store.{update_instance}
use labforge.Along.{IsClosed, along_rules}
use labforge.Along.Hosts.{runtime_of_node-Along, rm_overlay_dir-Along, choose_node-Along}
use labforge.Along.Rows.{best_effort-Along, ensure_guacamole_credentials-Along}
use labforge.Orchestrator.Provision.{
  ProvisionInput, prepare_overlay, await_rdp, set_provisioned, sync_guacamole, announce, record_lab,
  start_lab, destroy_recorded, remove_recorded, clean_row, set_failed, abandon, provision_new,
}
use labforge.Orchestrator.Acquire.{
  AcquireInput, set_claimed, claim_row, claim_prewarm, reuse, expiry_of, or_provision, or_claim,
  acquire_instance,
}

module _ (g : Guarantee World) (c : IsClosed g) where
  set_failed-Along : (id : String) → Moves g (update_instance id set_failed)
  set_failed-Along id = c.on_update id _ (λ r. refl)

  set_claimed-Along : (id user : String) (t : ℕ) → Moves g (update_instance id (set_claimed user t))
  set_claimed-Along id user t = c.on_update id _ (λ r. refl)

  set_provisioned-Along :
      (id : String) (res : ProvisionResult) (rdp : Option ℕ) (n : Option Node) (t : ℕ)
      → Moves g (update_instance id (set_provisioned res rdp n t))
  set_provisioned-Along id res rdp n t = c.on_update id _ (λ r. refl)

ruleset lab_rules = (
  along_rules, set_failed-Along, set_claimed-Along, set_provisioned-Along, best_effort-Along,
  ensure_guacamole_credentials-Along, runtime_of_node-Along, rm_overlay_dir-Along,
  choose_node-Along,
)

module _ (g : Guarantee World) (c : IsClosed g) (env : Env) where
  prepare_overlay-Along :
      (n : Option Node) (s : Spec) (id : String) (o : Option String)
      → Moves g (prepare_overlay env n s id o)
  unfolding prepare_overlay
  prepare_overlay-Along n s id none = search lab_rules
  prepare_overlay-Along n s id (some golden) =
      Moves-bind _ _ (search lab_rules)
        λ u. Moves-bind _ _ (c.on_update id _ (λ r. refl)) λ r. search lab_rules

  await_rdp-Along : (n : Option Node) (p : Option ℕ) → Moves g (await_rdp env n p)
  unfolding await_rdp
  await_rdp-Along n none = search lab_rules
  await_rdp-Along n (some p) = search lab_rules

  sync_guacamole-Along :
      (b : Bool) (id : String) (p : Option ℕ) → Moves g (sync_guacamole env b id p)
  unfolding sync_guacamole
  sync_guacamole-Along false id (some p) = search lab_rules
  sync_guacamole-Along false id none = search lab_rules
  sync_guacamole-Along true id p = search lab_rules

  announce-Along : (b : Bool) (i : Instance) → Moves g (announce env b i)
  announce-Along true i = search lab_rules
  announce-Along false i = search lab_rules

  record_lab-Along :
      (input : ProvisionInput) (n : Option Node) (id : String) (res : ProvisionResult)
      (rdp : Option ℕ)
      → Moves g (record_lab env input n id res rdp)
  unfolding record_lab
  record_lab-Along input n id res rdp =
      search (lab_rules, sync_guacamole-Along, announce-Along) depth 9

  start_lab-Along :
      (input : ProvisionInput) (s : Spec) (subdomain : String) (v : Option String) (n : Option Node)
      (i : Instance)
      → Moves g (start_lab env input s subdomain v n i)
  unfolding start_lab
  start_lab-Along input s subdomain v n i =
      search (lab_rules, prepare_overlay-Along, await_rdp-Along, record_lab-Along) depth 9

  destroy_recorded-Along : (rt : Runtime) (o : Option String) → Moves g (destroy_recorded env rt o)
  unfolding destroy_recorded
  destroy_recorded-Along rt none = search lab_rules
  destroy_recorded-Along rt (some id) = search lab_rules

  remove_recorded-Along : (n : Option Node) (o : Option String) → Moves g (remove_recorded env n o)
  unfolding remove_recorded
  remove_recorded-Along n none = search lab_rules
  remove_recorded-Along n (some dir) = search lab_rules

  clean_row-Along :
      (n : Option Node) (rt : Runtime) (o : Option Instance) → Moves g (clean_row env n rt o)
  unfolding clean_row
  clean_row-Along n rt none = search lab_rules
  clean_row-Along n rt (some i) = search (lab_rules, destroy_recorded-Along, remove_recorded-Along)

  abandon-Along : (n : Option Node) (id : String) (e : Error) → Moves g (abandon env n id e)
  unfolding abandon
  abandon-Along n id e =
      Moves-bind _ _ (search (lab_rules, clean_row-Along) depth 9)
        λ u. Moves-bind _ _ (set_failed-Along g c id) λ r. Moves-raise e

  pub provision_new-Along : (input : ProvisionInput) → Moves g (provision_new env input)
  unfolding provision_new
  provision_new-Along input = search (lab_rules, start_lab-Along, abandon-Along) depth 14

  reuse-Along : (i : Instance) (t : ℕ) → Moves g (reuse i t)
  unfolding reuse
  reuse-Along i t = Moves-if _ _ _ (c.on_update i.id _ (λ r. refl)) (Moves-pure i)

  expiry_of-Along : (minutes : ℕ) (o : Option ℕ) → Moves g (expiry_of env minutes o)
  unfolding expiry_of
  expiry_of-Along minutes none = search lab_rules
  expiry_of-Along minutes (some t) = search lab_rules

  claim_row-Along : (user : String) (t : ℕ) (o : Option Instance) → Moves g (claim_row env user t o)
  unfolding claim_row
  claim_row-Along user t none = search lab_rules
  claim_row-Along user t (some i) = search lab_rules

  claim_prewarm-Along :
      (template user : String) (t : ℕ) (ids : List String)
      → Moves g (claim_prewarm env template user t ids)
  unfolding claim_prewarm
  claim_prewarm-Along template user t ids = search (lab_rules, claim_row-Along)

  or_provision-Along :
      (input : AcquireInput) (t : ℕ) (o : Option Instance) → Moves g (or_provision env input t o)
  unfolding or_provision
  or_provision-Along input t none = provision_new-Along _
  or_provision-Along input t (some i) = search lab_rules

  or_claim-Along :
      (input : AcquireInput) (t : ℕ) (o : Option Instance) → Moves g (or_claim env input t o)
  unfolding or_claim
  or_claim-Along input t none = search (lab_rules, claim_prewarm-Along, or_provision-Along)
  or_claim-Along input t (some i) = reuse-Along i t

  pub acquire_instance-Along : (input : AcquireInput) → Moves g (acquire_instance env input)
  unfolding acquire_instance
  acquire_instance-Along input = search (lab_rules, expiry_of-Along, or_claim-Along)

-- ===== src/Orchestrator/Acquire/Reuse.antt =====
-- What a lab that is assigned has, and that reuse gives one.
use labforge.Base.{
  ℕ, ◌+◌, ◌*◌, ◌≤◌, String, ◌≡◌, refl, ap, ◌∙◌, eq_iff, Bool, true, false, Option, none, some, ltb,
  text_option_eq, arith, if◌then◌else◌, or_else,
}
use labforge.Exec.{Error, pure}
use labforge.Exec.Triple.{Triple, Triple-weaken, Triple-pure}
use labforge.Data.{Instance, Status, ready}
use labforge.Data.Statuses.{is_reusable, is_ready}
use labforge.World.{World, Env, date_now}
use labforge.Store.{instance_key, update_instance}
use labforge.Table.{lookup}
use labforge.Frame.Rows.{only_row-same}
use labforge.Frame.Added.{At, Triple-update}
use labforge.Orchestrator.Provision.{ProvisionInput}
use labforge.Orchestrator.Provision.Landing.{Same, Refused}
use labforge.Orchestrator.Acquire.{AcquireInput, is_own}

-- An instance of the user and of the template, that can be used, and that lasts until `t` at least.
abbrev pub IsAssigned : AcquireInput → ℕ → Instance → Type 0
IsAssigned input t i =
    (i.template_id ≡ input.template.id)
    × (i.user_id_hash ≡ some input.user_id_hash)
    × (i.is_prewarm ≡ false)
    × (is_reusable i.status ≡ true)
    × (t ≤ i.expires_at)

-- Both the result and its row in the table.
abbrev pub Assigned : AcquireInput → ℕ → Instance → World → Type 0
Assigned input t i w =
    IsAssigned input t i
    × ((r : Instance) × (lookup instance_key i.id w.instances ≡ some r) × IsAssigned input t r)

-- The request that a fresh instance is provisioned by.
abbrev pub fresh_input : AcquireInput → ℕ → ProvisionInput
fresh_input input t = record {
  tenant_id = input.tenant_id;
  template = input.template;
  user_id_hash = some input.user_id_hash;
  expires_at = t;
  is_prewarm = false;
  node_ids = input.node_ids;
}

-- The requested expiry, or the time of the call and the duration.
abbrev pub requested : Env → AcquireInput → World → ℕ
requested env input w =
    or_else input.expires_at (env.num_answer w.calls date_now + input.duration_minutes * 60000)

pub ready_reusable : (s : Status) → is_ready s ≡ true → is_reusable s ≡ true
ready_reusable ready h = refl
ready_reusable _ h = ground (arith, h)

text_some : (o : Option String) (u : String) → text_option_eq o (some u) ≡ true → o ≡ some u
text_some none u h = ground (arith, h)
text_some (some a) u h = ap (λ (x : String). some x) ((eq_iff a u).0 h)

module _ (template_id user : String) (i : Instance) where
  own_template : is_own template_id user i ≡ true → i.template_id ≡ template_id
  own_template h = (eq_iff i.template_id template_id).0 (ground (arith, h))

  own_user : is_own template_id user i ≡ true → i.user_id_hash ≡ some user
  own_user h = text_some i.user_id_hash user (ground (arith, h))

  own_kept : is_own template_id user i ≡ true → i.is_prewarm ≡ false
  own_kept h = ground (arith, h)

  own_reusable : is_own template_id user i ≡ true → is_reusable i.status ≡ true
  own_reusable h = ground (arith, h)

module _ (env : Env) (input : AcquireInput) (t : ℕ) (w : World) where
  abbrev pub Fails : Error → World → Type 0
  Fails e s = Refused (fresh_input input t) w s

  Assigned-At :
      (id : String) (i : Instance) (s : World)
      → ((i.id ≡ id) × IsAssigned input t i) × At id w (IsAssigned input t) s
      → Assigned input t i s
  Assigned-At id i s h =
      (h.0.1, (h.1.row, ap (λ k. lookup instance_key k s.instances) h.0.0 ∙ h.1.found, h.1.holds))

  -- All but the expiry.
  abbrev pub IsOwn : Instance → Type 0
  IsOwn i =
      (i.template_id ≡ input.template.id)
      × (i.user_id_hash ≡ some input.user_id_hash)
      × (i.is_prewarm ≡ false)
      × (is_reusable i.status ≡ true)

  pub IsOwn-all : (i : Instance) → is_own input.template.id input.user_id_hash i ≡ true → IsOwn i
  IsOwn-all i h = (
    own_template input.template.id input.user_id_hash i h,
    own_user input.template.id input.user_id_hash i h,
    own_kept input.template.id input.user_id_hash i h,
    own_reusable input.template.id input.user_id_hash i h,
  )

  abbrev pub extend : Instance → Instance
  extend r = record r { expires_at = t }

  extend_lands :
      (r : Instance)
      → lookup instance_key r.id w.instances ≡ some r
      → IsOwn r
      → Triple (Same w) (Assigned input t) Fails (update_instance r.id extend)
  extend_lands r row h =
      Triple-weaken _
        (λ s p. record {
          others = only_row-same r.id w s p;
          row = r;
          found = ap (lookup instance_key r.id) p ∙ row;
          holds = h;
        })
        (λ i s. Assigned-At r.id i s) (λ e s p. p)
        (Triple-update r.id w IsOwn (IsAssigned input t) Fails extend (λ x. refl)
          (λ x q. (q.0, q.1, q.2, q.3, omega arith)))

  pub reuse_if :
      (r : Instance) (b : Bool)
      → lookup instance_key r.id w.instances ≡ some r
      → IsOwn r
      → ltb r.expires_at t ≡ b
      → Triple (Same w) (Assigned input t) Fails (if b then update_instance r.id extend else pure r)
  reuse_if r true row h e = extend_lands r row h
  reuse_if r false row h e =
      let fine : IsAssigned input t r = (h.0, h.1, h.2, h.3, ground (arith, e)) in
      Triple-pure r (λ s p. (fine, (r, ap (lookup instance_key r.id) p ∙ row, fine)))

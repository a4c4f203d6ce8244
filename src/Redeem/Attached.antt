-- ===== src/Redeem/Attached.antt =====
-- The whole redemption: the instance is taken or acquired, attached to the launch, and served.
use mathlib.Core.Bool.{false≢true}
use labforge.Base.{
  ℕ, String, ◌≡◌, ◌≢◌, refl, sym, ap, ◌∙◌, Bool, true, false, Option, none, some, is_some, ◌==◌,
  ◌&&◌, not, any, arith, eq_refl, if◌then◌else◌, leb,
}
use labforge.Base.Texts.{fits}
use labforge.Exec.{Error, Result, ok, err, pure, lift, or_fail, ◌>>=◌, row_not_found}
use labforge.Exec.Laws.{attempt-bind}
use labforge.Exec.Triple.{Post, Triple, Triple-bind, Triple-pure, Triple-keep}
use labforge.Data.{Launch, Template, Instance}
use labforge.Data.Statuses.{is_reusable}
use labforge.World.{World, Env, date_now}
use labforge.Web.{Web, Claims}
use labforge.Table.{lookup, key-lookup, lookup-update, update}
use labforge.Store.{now, instance_key, launch_key, put_launch, update_launch, clashes, emit_usage}
use labforge.Along.{now-Along, emit_usage-Along}
use labforge.Along.Labs.{acquire_instance-Along}
use labforge.Frame.Keys.{IsKeyed}
use labforge.Orchestrator.Acquire.{acquire_instance}
use labforge.Orchestrator.Acquire.Outcome.{acquire_instance-assigns}
use labforge.Orchestrator.Acquire.Reuse.{Assigned, Fails, requested}
use labforge.Launches.Prepare.{include, instance_at, alive, acquire_input}
use labforge.Redeem.{
  redeem, redeem_found, redeem_at, redeem_current, redeem_lab, redeem_acquired, is_current, stamp,
  attach, serve, set_redeemed, set_attached, redeemed_event,
}
use labforge.Redeem.Guards.{verdict, ticked, redeem-row, redeem_found_lem}
use labforge.Redeem.Resumed.{No}
use labforge.Redeem.Seats.{IsSeat, Sits, keep_seat, serve_lands}
use labforge.System.Rows.{seats_kept, seats_kept-IsClosed}

-- The instance is on record, and so is the launch, as it was read.
pub record IsHeld (l : Launch) (id : String) (s : World) : Type 0 where
  pub row : Instance
  pub found : lookup instance_key id s.instances ≡ some row
  pub held : lookup launch_key l.id s.launches ≡ some l

module _ (env : Env) (web : Web) (l : Launch) where
  IsHeld-moves : (id : String) (s t : World) → seats_kept.rel s t → IsHeld l id s → IsHeld l id t
  IsHeld-moves id s t g h =
      let (r, h') = g.0 id h.row h.found in
      record { row = r; found = h'.0; held = ap (lookup launch_key l.id) g.1 ∙ h.held }

  -- A write that attaches the instance and stamps the launch.
  seats_write :
      (id : String) (f : Launch → Launch)
      → ((x : Launch) → (f x).id ≡ x.id)
      → (f l).instance_id ≡ some id
      → is_some (f l).redeemed_at ≡ true
      → ((t : ℕ) → l.redeemed_at ≡ some t → (f l).redeemed_at ≡ some t)
      → Triple (IsHeld l id) (λ a s. IsSeat l id s) (No env) (update_launch l.id f)
  unfolding update_launch put_launch
  seats_write id f same a r first = record {
    run = λ s h.
        rw h.held (by_clash s h (any (λ x. not (x.id == l.id) && clashes (f l) x) s.launches));
  }
    where
      written : Bool → World → Result Launch × World
      written b s =
          if b
          then (err Error.unique_violation, s)
          else (ok (f l), record s { launches = update launch_key l.id f s.launches })

      by_clash :
          (s : World)
          → IsHeld l id s
          → (b : Bool) → Post (λ a s. IsSeat l id s) (No env) (written b s).0 (written b s).1
      by_clash s h true = tt
      by_clash s h false = record {
        row = h.row;
        found = h.found;
        seat = f l;
        kept =
            lookup-update launch_key l.id l.id f s.launches same ∙ (rw (eq_refl l.id, h.held) refl);
        attached = a;
        redeemed = r;
        first = first;
      }

  keep-IsHeld : (id : String) → Triple (IsHeld l id) (λ a s. IsHeld l id s) (No env) (now env)
  keep-IsHeld id =
      Triple-keep (now env)
        (λ s p. IsHeld-moves id s _ ((now-Along seats_kept seats_kept-IsClosed env).at s) p)
        (λ a s p. p) (λ e s p. tt)

  emit_seat :
      (id i : String)
      → Triple (IsSeat l id) (λ a s. IsSeat l id s) (No env) (emit_usage env (redeemed_event l i))
  emit_seat id i = keep_seat env web l id _ (emit_usage-Along seats_kept seats_kept-IsClosed env _)

  stamp_lands :
      (i : Instance) (o : Option ℕ)
      → l.redeemed_at ≡ o
      → l.instance_id ≡ some i.id
      → Triple (IsHeld l i.id) (λ a s. IsSeat l i.id s) (No env) (stamp env l i o)
  unfolding stamp
  stamp_lands i (some t) e a = Triple-pure tt λ s h. record {
    row = h.row;
    found = h.found;
    seat = l;
    kept = h.held;
    attached = a;
    redeemed = ap is_some e;
    first = λ u q. q;
  }
  stamp_lands i none e a = Triple-bind _ _ (keep-IsHeld i.id) λ t.
      Triple-bind _ _
        (seats_write i.id (set_redeemed t) (λ x. refl) a refl
          (λ u q. absurd (false≢true (was_new u (sym e ∙ q)))))
        (λ x. emit_seat i.id i.id)
    where
      was_new : (u : ℕ) → none ≡ some u → false ≡ true
      was_new u q = ground (arith, q)

  attach_lands :
      (i : Instance) (o : Option ℕ)
      → l.redeemed_at ≡ o
      → Triple (IsHeld l i.id) (λ a s. IsSeat l i.id s) (No env) (attach env l i o)
  unfolding attach
  attach_lands i (some t) e =
      Triple-bind _ _
        (seats_write i.id (set_attached i.id t) (λ x. refl) refl refl (λ u q. sym e ∙ q))
        (λ x. Triple-pure tt (λ s h. h))
  attach_lands i none e = Triple-bind _ _ (keep-IsHeld i.id) λ t.
      Triple-bind _ _
        (seats_write i.id (set_attached i.id t) (λ x. refl) refl refl (λ u q. ground (arith, e, q)))
        (λ x. emit_seat i.id i.id)

  none-some : (i : Instance) → none ≢ some i
  none-some i q = ground (arith, q)

  is_it : (b : Bool) (r : Instance) {i : Instance} → (if b then some r else none) ≡ some i → r ≡ i
  is_it true r h = cc
  is_it false r {i = i} h = absurd (none-some i h)

  -- An instance that the launch holds, found alive.
  alive_held :
      (o : Option String) (w : World) (i : Instance)
      → alive (instance_at o w) ≡ some i
      → (o ≡ some i.id) × (lookup instance_key i.id w.instances ≡ some i)
  alive_held none w i h = absurd (none-some i h)
  alive_held (some id) w i h = at_row (lookup instance_key id w.instances) refl h
    where
      at_row :
          (r : Option Instance)
          → lookup instance_key id w.instances ≡ r
          → alive r ≡ some i
          → (some id ≡ some i.id) × (lookup instance_key i.id w.instances ≡ some i)
      at_row none e h = absurd (none-some i h)
      at_row (some r) e h =
          let same : r ≡ i = is_it (is_reusable r.status) r h in
          let key : i.id ≡ id =
            ap instance_key (sym same) ∙ key-lookup instance_key id w.instances r e in
          (
            ap (λ (x : String). some x) (sym key),
            ap (λ k. lookup instance_key k w.instances) key
                ∙ e
                ∙ ap (λ (x : Instance). some x) same,
          )

  module _ (w : World) (keyed : IsKeyed w.instances) (t : Template) where
    serve_seat :
        (i : Instance) → Triple (IsSeat l i.id) (Sits env web l) (No env) (serve env web l t i)
    serve_seat i = serve_lands env web l t i

    acquired_lands :
        (r : Result Instance) (s : World)
        → Post (Assigned (acquire_input l t) (requested env (acquire_input l t) w)) (No env) r s
        → lookup launch_key l.id s.launches ≡ some l
        → Post
            (Sits env web l)
            (No env)
            (redeem_acquired env web l t r s).0
            (redeem_acquired env web l t r s).1
    acquired_lands (err e) s h k = unfold redeem_acquired pure in tt
    acquired_lands (ok i) s h k =
        unfold redeem_acquired in
        (Triple-bind _ _ (attach_lands i l.redeemed_at refl) (λ u. serve_seat i)).run s
          (record { row = h.1.0; found = h.1.1; held = k })

    forget :
        (r : Result Instance) (s : World)
        → Post
            (Assigned (acquire_input l t) (requested env (acquire_input l t) w))
            (Fails env (acquire_input l t) (requested env (acquire_input l t) w) w)
            r
            s
        → Post (Assigned (acquire_input l t) (requested env (acquire_input l t) w)) (No env) r s
    forget (ok i) s h = h
    forget (err e) s h = tt

    lab_lands :
        (o : Option Instance)
        → ((i : Instance)
            → o ≡ some i
            → (l.instance_id ≡ some i.id) × (lookup instance_key i.id w.instances ≡ some i))
        → lookup launch_key l.id w.launches ≡ some l
        → Post
            (Sits env web l)
            (No env)
            (redeem_lab env web l t o w).0
            (redeem_lab env web l t o w).1
    unfolding redeem_lab
    lab_lands (some i) h k =
        (Triple-bind _ _ (stamp_lands i l.redeemed_at refl (h i refl).0) (λ u. serve_seat i)).run w
          (record { row = i; found = (h i refl).1; held = k })
    lab_lands none h k =
        rw (attempt-bind (acquire_instance env (acquire_input l t)) (redeem_acquired env web l t) w)
          (acquired_lands _ _
            (forget _ _ (acquire_instance-assigns env (acquire_input l t) w keyed))
            (ap (lookup launch_key l.id)
                ((acquire_instance-Along seats_kept seats_kept-IsClosed env (acquire_input l t)).at
                  w).1
              ∙ k))

module _ (env : Env) (web : Web) (token : String) (w : World) (claims : Claims) (l : Launch)
    (row : lookup launch_key claims.sub w.launches ≡ some l) (keyed : IsKeyed w.instances) where
  own_row : lookup launch_key l.id w.launches ≡ some l
  own_row =
      ap (λ k. lookup launch_key k w.launches) (key-lookup launch_key claims.sub w.launches l row)
      ∙ row

  current_lands :
      (o : Option Template)
      → Post
          (Sits env web l)
          (No env)
          ((lift (or_fail row_not_found o) >>= λ t.
              redeem_lab env web l t (alive (instance_at l.instance_id (ticked w))))
            (ticked (ticked w))).0
          ((lift (or_fail row_not_found o) >>= λ t.
              redeem_lab env web l t (alive (instance_at l.instance_id (ticked w))))
            (ticked (ticked w))).1
  unfolding ◌>>=◌
  current_lands none = tt
  current_lands (some t) =
      lab_lands env web l (ticked (ticked w)) keyed t _
        (λ i h. alive_held env web l l.instance_id (ticked w) i h) own_row

  expiry_lands :
      (b : Bool)
      → leb l.expires_at (env.num_answer (ticked w).calls date_now) ≡ b
      → Post
          (Sits env web l)
          (No env)
          (redeem_at env web l
            (include l (ticked w))
            (env.num_answer (ticked w).calls date_now)
            (ticked (ticked w))).0
          (redeem_at env web l
            (include l (ticked w))
            (env.num_answer (ticked w).calls date_now)
            (ticked (ticked w))).1
  unfolding redeem_at redeem_current pure include
  expiry_lands true h = rw h tt
  expiry_lands false h = rw h (current_lands _)

  token_lands :
      (b : Bool)
      → is_current l.token_jti claims.jti ≡ b
      → Post
          (Sits env web l)
          (No env)
          (redeem_found env web claims l (include l (ticked w)) (ticked w)).0
          (redeem_found env web claims l (include l (ticked w)) (ticked w)).1
  token_lands true h =
      rw (redeem_found_lem env web claims l (include l (ticked w)) (ticked w) h)
        (expiry_lands _ refl)
  token_lands false h = unfold redeem_found pure in rw h tt

  -- A redemption with a token that passes the signature check, for a launch on record, and with distinct
  -- identifiers before: where it is answered, the launch holds an instance that is on record, it has been
  -- redeemed, and an earlier time of redemption is kept. Where the answer is the lab, the cookie is a
  -- session signed for that instance, with the tenant and the user of the launch.
  pub redeem-Sits :
      fits 9 token ≡ false
      → verdict env web token w ≡ ok claims
      → Post
          (Sits env web l)
          (No env)
          (redeem env web (some token) w).0
          (redeem env web (some token) w).1
  redeem-Sits long v = rw (redeem-row env web token w claims l long v row) (token_lands _ refl)

-- ===== src/Along/Batches.antt =====
-- The batch routes but for the purge, along a guarantee that also covers the writes of launches.
use labforge.Base.{ℕ, String, Bool, Option, none, some, List, [], ◌∷◌}
use labforge.Exec.Moves.{Guarantee, Moves, Moves-bind, Moves-if, Moves-pure}
use labforge.Data.{Launch, Template, Instance}
use labforge.World.{World, Env}
use labforge.Web.{Web}
use labforge.Along.{IsClosed, along_rules}
use labforge.Along.Rows.{destroy_instance-Along, resume_instance-Along}
use labforge.Along.Labs.{acquire_instance-Along}
use labforge.Along.Launches.{attempt-Moves}
use labforge.Along.Routes.{IsLaunchClosed, set_instance-Along}
use labforge.Launches.{set_revoked}
use labforge.Batches.{
  Seat, SeatCounts, in_batch, update_launches, revoke_batch, end_seat, end_seats, close_seats,
  terminate_seats, terminate_batch, prepare_fresh, prepare_seat, work, prepare_seats, prepare_due,
  prepare_batch, concurrency_of,
}

-- What a revocation of many launches must keep.
abbrev pub OnRevokeAll : Guarantee World → Type 0
OnRevokeAll g = (p : Launch → Bool) (t : ℕ) → Moves g (update_launches p (set_revoked t))

module _ (g : Guarantee World) (c : IsLaunchClosed g) (all : OnRevokeAll g) (env : Env) (web : Web)
    (tenant_id batch_id : String) where
  rows : IsClosed g
  rows = c.closed

  pub revoke_batch-Along : Moves g (revoke_batch env web tenant_id batch_id)
  unfolding revoke_batch
  revoke_batch-Along = search (along_rules, all)

  end_seat-Along : (b : Bool) (o : Option Instance) → Moves g (end_seat env b o)
  unfolding end_seat
  end_seat-Along b none = Moves-pure _
  end_seat-Along b (some i) =
      Moves-if _ _ _
        (Moves-bind _ _ (attempt-Moves g _ (destroy_instance-Along g rows env i.id b))
          (λ r. Moves-pure _))
        (Moves-pure _)

  end_seats-Along : (b : Bool) (ss : List Seat) → Moves g (end_seats env b ss)
  unfolding end_seats
  end_seats-Along b [] = Moves-pure _
  end_seats-Along b (s ∷ ss) =
      Moves-bind _ _ (end_seat-Along b s.included.instance)
        (λ x. Moves-bind _ _ (end_seats-Along b ss) (λ n. Moves-pure _))

  close_seats-Along : (n : ℕ) → Moves g (close_seats env (in_batch web tenant_id batch_id) n)
  unfolding close_seats
  close_seats-Along n = search (along_rules, all)

  terminate_seats-Along :
      (b : Bool) (ss : List Seat) → Moves g (terminate_seats env web tenant_id batch_id b ss)
  unfolding terminate_seats
  terminate_seats-Along b [] = Moves-pure _
  terminate_seats-Along b (s ∷ ss) =
      Moves-bind _ _ (end_seats-Along b (s ∷ ss)) (λ n. close_seats-Along n)

  pub terminate_batch-Along :
      (body : Option (Option Bool)) → Moves g (terminate_batch env web tenant_id batch_id body)
  unfolding terminate_batch
  terminate_batch-Along none = Moves-pure _
  terminate_batch-Along (some o) = search (along_rules, terminate_seats-Along)

  prepare_fresh-Along : (l : Launch) (o : Option Template) → Moves g (prepare_fresh env l o)
  unfolding prepare_fresh
  prepare_fresh-Along l o = search (along_rules, acquire_instance-Along, set_instance-Along)

  prepare_seat-Along :
      (l : Launch) (t : Option Template) (o : Option Instance) → Moves g (prepare_seat env l t o)
  unfolding prepare_seat
  prepare_seat-Along l t none = prepare_fresh-Along l t
  prepare_seat-Along l t (some i) = Moves-if _ _ _ (Moves-pure _) (
      Moves-if _ _ _ (Moves-bind _ _ (resume_instance-Along g rows env i.id 0) (λ r. Moves-pure _))
        (prepare_fresh-Along l t))

  work-Along : (ss : List Seat) (n : SeatCounts) → Moves g (work env ss n)
  unfolding work
  work-Along [] n = Moves-pure _
  work-Along (s ∷ ss) n =
      Moves-bind _ _
        (attempt-Moves g _ (prepare_seat-Along s.launch s.included.template s.included.instance))
        (λ r. work-Along ss _)

  prepare_seats-Along : (ss : List Seat) → Moves g (prepare_seats env ss)
  unfolding prepare_seats
  prepare_seats-Along [] = Moves-pure _
  prepare_seats-Along (s ∷ ss) = Moves-bind _ _ (work-Along (s ∷ ss) _) (λ n. Moves-pure _)

  prepare_due-Along : (o : Option ℕ) → Moves g (prepare_due env web tenant_id batch_id o)
  unfolding prepare_due
  prepare_due-Along none = Moves-pure _
  prepare_due-Along (some n) = search (along_rules, prepare_seats-Along)

  pub prepare_batch-Along :
      (body : Option (Option ℕ)) → Moves g (prepare_batch env web tenant_id batch_id body)
  unfolding prepare_batch
  prepare_batch-Along body = prepare_due-Along (concurrency_of body)

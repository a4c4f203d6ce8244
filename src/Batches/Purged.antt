-- ===== src/Batches/Purged.antt =====
-- What a purge leaves of the launches of a batch.
use labforge.Base.{
  ℕ, ◌≡◌, refl, String, Bool, false, not, List, [], ◌∷◌, filter, Bool-cases, inl, inr,
}
use labforge.Exec.{Result, ok, pure, gets, ◌>>=◌}
use labforge.Exec.Laws.{bind-ok}
use labforge.Data.{Launch}
use labforge.World.{World, Env}
use labforge.Web.{Web, Reply, refuse, answer}
use labforge.Batches.Seats.{end_seats-Returned}
use labforge.Batches.{
  Seat, Purge, in_batch, delete_launches, remove_seats, end_seats, seats_of, purge_seats,
  purge_batch,
}

module _ (p : Launch → Bool) where
  -- No launch of the list is one that the test picks.
  abbrev pub NonePicked : List Launch → Type 0
  NonePicked [] = Unit
  NonePicked (l ∷ ls) = (p l ≡ false) × NonePicked ls

  filter-NonePicked : (ls : List Launch) → NonePicked (filter (λ l. not (p l)) ls)
  filter-NonePicked [] = tt
  filter-NonePicked (l ∷ ls) = elim (Bool-cases (p l)) [
    | inl t ↦ rw t (filter-NonePicked ls)
    | inr u ↦ rw u (u, filter-NonePicked ls)
  ]

-- A purge that was answered, and the state after it.
pub record Removed (p : Launch → Bool) (r : Result (Reply Purge)) (w : World) : Type 0 where
  pub reply : Purge
  pub answered : r ≡ ok (answer reply)
  pub removed : NonePicked p w.launches

-- What the seats of a batch are answered with.
abbrev pub Removes : (Launch → Bool) → List Seat → Result (Reply Purge) → World → Type 0
Removes p [] r w = r ≡ ok (refuse 404 "batch_not_found")
Removes p (s ∷ ss) r w = Removed p r w

remove_seats-Removed :
    (p : Launch → Bool) (n : ℕ) (w : World)
    → Removed p (remove_seats p n w).0 (remove_seats p n w).1
unfolding remove_seats delete_launches pure ◌>>=◌
remove_seats-Removed p n w = record {
  reply = _;
  answered = refl;
  removed = filter-NonePicked p w.launches;
}

module _ (env : Env) (web : Web) (tenant_id batch_id : String) where
  purge_seats-Removes :
      (ss : List Seat) (w : World)
      → Removes
          (in_batch web tenant_id batch_id)
          ss
          (purge_seats env web tenant_id batch_id ss w).0
          (purge_seats env web tenant_id batch_id ss w).1
  unfolding purge_seats pure
  purge_seats-Removes [] w = refl
  purge_seats-Removes (s ∷ ss) w =
      let ends = end_seats-Returned env false (s ∷ ss) w in
      rw
        (bind-ok (end_seats env false (s ∷ ss)) (remove_seats (in_batch web tenant_id batch_id)) w
          ends.value ends.returned)
        (remove_seats-Removed (in_batch web tenant_id batch_id) ends.value
          (end_seats env false (s ∷ ss) w).1)

  -- A purge is answered with 404 when the batch has no launch. Otherwise it does not throw, whatever
  -- the destruction of its instances does, and no launch of the batch is on record after it.
  pub purge_batch-Removes :
      (w : World)
      → Removes
          (in_batch web tenant_id batch_id)
          (seats_of web tenant_id batch_id w)
          (purge_batch env web tenant_id batch_id w).0
          (purge_batch env web tenant_id batch_id w).1
  unfolding purge_batch gets ◌>>=◌
  purge_batch-Removes w = purge_seats-Removes (seats_of web tenant_id batch_id w) w

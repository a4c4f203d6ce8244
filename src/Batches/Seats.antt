-- ===== src/Batches/Seats.antt =====
-- The loop that destroys the labs of a batch does not throw.
use labforge.Base.{
  ◌≡◌, refl, ap, ◌∙◌, Bool, false, Option, none, some, List, [], ◌∷◌, Bool-cases, inl, inr,
}
use labforge.Exec.{Result, ok, pure}
use labforge.Exec.Laws.{attempt-bind, bind-ok}
use labforge.Data.{Instance}
use labforge.Data.Statuses.{is_counted}
use labforge.World.{World, Env}
use labforge.Orchestrator.Destroy.{destroy_instance}
use labforge.Batches.{Seat, end_seat, end_seats, count_if, succeeded}

-- An action that returns.
pub record Returned {A : Type 0} (r : Result A) : Type 0 where
  pub value : A
  pub returned : r ≡ ok value

end_seat-Returned :
    (env : Env) (d : Bool) (o : Option Instance) (w : World) → Returned (end_seat env d o w).0
unfolding end_seat pure
end_seat-Returned env d none w = record { value = false; returned = refl }
end_seat-Returned env d (some i) w = elim (Bool-cases (is_counted i.status)) [
  | inl t ↦ record {
    value = succeeded (destroy_instance env i.id d w).0;
    returned =
        rw t
          (ap (λ r. r.0) (attempt-bind (destroy_instance env i.id d) (λ r. pure (succeeded r)) w));
  }
  | inr u ↦ rw u (record { value = false; returned = refl })
]

pub end_seats-Returned :
    (env : Env) (d : Bool) (ss : List Seat) (w : World) → Returned (end_seats env d ss w).0
unfolding end_seats pure
end_seats-Returned env d [] w = record { value = 0; returned = refl }
end_seats-Returned env d (s ∷ ss) w =
    let first = end_seat-Returned env d s.included.instance w in
    let rest = end_seats-Returned env d ss (end_seat env d s.included.instance w).1 in
    record {
      value = count_if first.value rest.value;
      returned =
          ap (λ r. r.0)
            (bind-ok (end_seat env d s.included.instance) _ w first.value first.returned)
          ∙ ap (λ r. r.0) (bind-ok (end_seats env d ss) _ _ rest.value rest.returned);
    }

-- ===== src/Exec/Moves.antt =====
-- Guarantees of actions: a relation between the state before and the state after, with one rule for
-- each way to build an action. An invariant is the relation "if it held before, it holds after".
use labforge.Base.{Bool, true, false, List, [], ◌∷◌, if◌then◌else◌}
use labforge.Exec.{
  Error, Result, ok, err, Exec, pure, raise, gets, lift, handle, try_catch, continue, ◌>>=◌,
  for_each,
}

-- A reflexive and transitive relation.
pub record Guarantee {ℓ} (S : Type ℓ) : Type (ℓ + 1) where
  pub rel : S → S → Type ℓ
  pub stay : (s : S) → rel s s
  pub chain : (s t u : S) → rel s t → rel t u → rel s u

-- Whether `m` returns or throws, the states before and after are related.
pub record Moves {ℓ} {S A : Type ℓ} (g : Guarantee S) (m : Exec S A) : Type ℓ where
  pub at : (s : S) → g.rel s (m s).1

module _ {ℓ} {S A : Type ℓ} {g : Guarantee S} where
  pub Moves-pure : (a : A) → Moves g (pure a)
  unfolding pure
  Moves-pure a = record { at = g.stay }

  pub Moves-raise : (e : Error) → Moves g (raise {A = A} e)
  unfolding raise
  Moves-raise e = record { at = g.stay }

  pub Moves-gets : (f : S → A) → Moves g (gets f)
  unfolding gets
  Moves-gets f = record { at = g.stay }

  pub Moves-lift : (r : Result A) → Moves g (lift r)
  unfolding lift
  Moves-lift r = record { at = g.stay }

  pub Moves-if : (b : Bool) (m n : Exec S A) → Moves g m → Moves g n → Moves g (if b then m else n)
  Moves-if true m n hm hn = hm
  Moves-if false m n hm hn = hn

  handle_rel :
      (r : Result A) (k : Error → Exec S A)
      → ((e : Error) → Moves g (k e))
      → (s : S) → g.rel s (handle r k s).1
  handle_rel (ok a) k hk s = g.stay s
  handle_rel (err e) k hk s = (hk e).at s

  pub Moves-try_catch :
      (m : Exec S A) (k : Error → Exec S A)
      → Moves g m
      → ((e : Error) → Moves g (k e))
      → Moves g (try_catch m k)
  unfolding try_catch
  Moves-try_catch m k hm hk = record {
    at = λ s. let (r, s') = m s in g.chain s s' _ (hm.at s) (handle_rel r k hk s');
  }

module _ {ℓ} {S A B : Type ℓ} {g : Guarantee S} where
  continue_rel :
      (r : Result A) (f : A → Exec S B)
      → ((a : A) → Moves g (f a))
      → (s : S) → g.rel s (continue r f s).1
  continue_rel (ok a) f hf s = (hf a).at s
  continue_rel (err e) f hf s = g.stay s

  pub Moves-bind :
      (m : Exec S A) (f : A → Exec S B) → Moves g m → ((a : A) → Moves g (f a)) → Moves g (m >>= f)
  unfolding ◌>>=◌
  Moves-bind m f hm hf = record {
    at = λ s. let (r, s') = m s in g.chain s s' _ (hm.at s) (continue_rel r f hf s');
  }

module _ {ℓ} {S A : Type ℓ} {g : Guarantee S} where
  pub Moves-for_each :
      (xs : List A) (body : A → Exec S Unit)
      → ((x : A) → Moves g (body x))
      → Moves g (for_each xs body)
  unfolding for_each
  Moves-for_each [] body h = Moves-pure tt
  Moves-for_each (x ∷ xs) body h = Moves-bind (body x) _ (h x) (λ _. Moves-for_each xs body h)

pub ruleset moves_rules = (
  Moves-pure, Moves-raise, Moves-gets, Moves-lift, Moves-if, Moves-try_catch, Moves-bind,
  Moves-for_each,
)

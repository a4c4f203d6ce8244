-- ===== src/Exec/Triple.antt =====
-- Triples: from a state that meets the precondition an action returns in a state that meets the
-- postcondition, or throws in one that meets the error condition.
use labforge.Exec.{
  Error, Result, ok, err, Exec, pure, raise, gets, handle, try_catch, continue, ◌>>=◌, attempt,
}
use mathlib.Core.Path.{◌≡◌, refl, subst, sym}
use labforge.Exec.Laws.{Total}

abbrev pub Post {ℓ} :
    {S A : Type ℓ} → (A → S → Type ℓ) → (Error → S → Type ℓ) → Result A → S → Type ℓ
Post Q E (ok a) s = Q a s
Post Q E (err e) s = E e s

pub record Triple {ℓ} {S A : Type ℓ} (P : S → Type ℓ) (Q : A → S → Type ℓ) (E : Error → S → Type ℓ)
    (m : Exec S A) : Type ℓ where
  pub run : (s : S) → P s → Post Q E (m s).0 (m s).1

module _ {ℓ} {S A B : Type ℓ} {Q : A → S → Type ℓ} {R : B → S → Type ℓ}
    {E : Error → S → Type ℓ} where
  continue-Post :
      (f : A → Exec S B)
      → ((a : A) → Triple (Q a) R E (f a))
      → (r : Result A) (s : S) → Post Q E r s
      → Post R E (continue r f s).0 (continue r f s).1
  continue-Post f k (ok a) s h = (k a).run s h
  continue-Post f k (err e) s h = h

  pub Triple-bind :
      {P : S → Type ℓ} (m : Exec S A) (f : A → Exec S B)
      → Triple P Q E m
      → ((a : A) → Triple (Q a) R E (f a))
      → Triple P R E (m >>= f)
  unfolding ◌>>=◌
  Triple-bind m f h k = record { run = λ s p. continue-Post f k (m s).0 (m s).1 (h.run s p) }

module _ {ℓ} {S A : Type ℓ} {Q : A → S → Type ℓ} {E D : Error → S → Type ℓ} where
  handle-Post :
      (k : Error → Exec S A)
      → ((e : Error) → Triple (E e) Q D (k e))
      → (r : Result A) (s : S) → Post Q E r s
      → Post Q D (handle r k s).0 (handle r k s).1
  handle-Post k h (ok a) s p = p
  handle-Post k h (err e) s p = (h e).run s p

  pub Triple-try_catch :
      {P : S → Type ℓ} (m : Exec S A) (k : Error → Exec S A)
      → Triple P Q E m
      → ((e : Error) → Triple (E e) Q D (k e))
      → Triple P Q D (try_catch m k)
  unfolding try_catch
  Triple-try_catch m k h hk = record { run = λ s p. handle-Post k hk (m s).0 (m s).1 (h.run s p) }

after {ℓ} :
    {S A : Type ℓ} (P : S → Type ℓ) (Q : A → S → Type ℓ) (E : Error → S → Type ℓ) (r : Result A)
    (s : S)
    → ((a : A) → P s → Q a s)
    → ((e : Error) → P s → E e s)
    → P s
    → Post Q E r s
after P Q E (ok a) s q e p = q a p
after P Q E (err x) s q e p = e x p

module _ {ℓ} {S A : Type ℓ} {P : S → Type ℓ} {Q : A → S → Type ℓ} {E : Error → S → Type ℓ} where
  pub Triple-pure : (a : A) → ((s : S) → P s → Q a s) → Triple P Q E (pure a)
  unfolding pure
  Triple-pure a h = record { run = h }

  pub Triple-raise : (e : Error) → ((s : S) → P s → E e s) → Triple P Q E (raise e)
  unfolding raise
  Triple-raise e h = record { run = h }

  -- An action that keeps the precondition, whether it returns or throws.
  pub Triple-keep :
      (m : Exec S A)
      → ((s : S) → P s → P (m s).1)
      → ((a : A) (s : S) → P s → Q a s)
      → ((e : Error) (s : S) → P s → E e s)
      → Triple P Q E m
  Triple-keep m h q e = record {
    run = λ s p. after P Q E (m s).0 (m s).1 (λ a. q a (m s).1) (λ x. e x (m s).1) (h s p);
  }

  -- Stronger before, weaker after.
  pub Triple-weaken :
      {P' : S → Type ℓ} {Q' : A → S → Type ℓ} {E' : Error → S → Type ℓ} (m : Exec S A)
      → ((s : S) → P' s → P s)
      → ((a : A) (s : S) → Q a s → Q' a s)
      → ((e : Error) (s : S) → E e s → E' e s)
      → Triple P Q E m
      → Triple P' Q' E' m
  Triple-weaken {Q' = Q'} {E' = E'} m p q e h = record {
    run = λ s x. weaken (m s).0 (m s).1 (h.run s (p s x));
  }
    where
      weaken : (r : Result A) (s : S) → Post Q E r s → Post Q' E' r s
      weaken (ok a) s x = q a s x
      weaken (err y) s x = e y s x

  -- A fact among the precondition is a hypothesis.
  pub Triple-fact : (F : Type ℓ) (m : Exec S A) → (F → Triple P Q E m) → Triple (λ s. F × P s) Q E m
  Triple-fact F m h = record { run = λ s p. (h p.0).run s p.1 }

-- An action that cannot throw meets any error condition.
pub Triple-Total {ℓ} :
    {S : Type ℓ} {P : S → Type ℓ} {E : Error → S → Type ℓ} (m : Exec S (Unit {ℓ}))
    → Total m
    → ((s : S) → P s → P (m s).1)
    → Triple P (λ _. P) E m
Triple-Total {P = P} {E = E} m t h = record {
  run = λ s p. subst (λ r. Post (λ _. P) E r (m s).1) (sym (t s)) (h s p);
}

-- A read binds what the state says.
pub Triple-gets {ℓ} :
    {S A B : Type ℓ} {P : S → Type ℓ} {Q : B → S → Type ℓ} {E : Error → S → Type ℓ} (f : S → A)
    (k : A → Exec S B)
    → ((a : A) → Triple (λ s. (f s ≡ a) × P s) Q E (k a))
    → Triple P Q E (gets f >>= k)
unfolding ◌>>=◌
Triple-gets f k h = record { run = λ s p. (h (f s)).run s (refl, p) }

-- No claim.
pub Triple-any {ℓ} :
    {S A : Type ℓ} {P : S → Type ℓ} (m : Exec S A) → Triple P (λ _ _. Unit {ℓ}) (λ _ _. Unit {ℓ}) m
Triple-any {S = S} {A = A} m = record { run = λ s p. any_Post (m s).0 (m s).1 }
  where
    any_Post : (r : Result A) (s : S) → Post (λ _ _. Unit {ℓ}) (λ _ _. Unit {ℓ}) r s
    any_Post (ok a) s = tt
    any_Post (err e) s = tt

-- An attempt hands on its result with what it says of the state.
pub Triple-attempt {ℓ} :
    {S A : Type ℓ} {P : S → Type ℓ} {Q : A → S → Type ℓ} {E D : Error → S → Type ℓ} (m : Exec S A)
    → Triple P Q E m
    → Triple P (λ r s. Post Q E r s) D (attempt m)
unfolding attempt
Triple-attempt m h =
    Triple-try_catch _ _ (Triple-bind _ _ h (λ a. Triple-pure (ok a) (λ s q. q)))
      (λ e. Triple-pure (err e) (λ s q. q))

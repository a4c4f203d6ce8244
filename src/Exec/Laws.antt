-- ===== src/Exec/Laws.antt =====
-- How a computation goes on after a step that returns, and after one that throws.
use labforge.Base.{◌≡◌, refl, ap, List, [], ◌∷◌, ◌∙◌}
use labforge.Exec.{
  Error, Result, ok, err, Exec, pure, handle, attempt, try_catch, continue, ◌>>=◌, for_each,
}

module _ {ℓ} {S A B : Type ℓ} (m : Exec S A) (f : A → Exec S B) (s : S) where
  pub bind-ok : (a : A) → (m s).0 ≡ ok a → (m >>= f) s ≡ f a (m s).1
  unfolding ◌>>=◌
  bind-ok a h = ap (λ r. continue r f (m s).1) h

  pub bind-err : (e : Error) → (m s).0 ≡ err e → (m >>= f) s ≡ (err e, (m s).1)
  unfolding ◌>>=◌
  bind-err e h = ap (λ r. continue r f (m s).1) h

module _ {ℓ} {S A : Type ℓ} (m : Exec S A) (k : Error → Exec S A) (s : S) where
  pub try_catch-ok : (a : A) → (m s).0 ≡ ok a → try_catch m k s ≡ (ok a, (m s).1)
  unfolding try_catch
  try_catch-ok a h = ap (λ r. handle r k (m s).1) h

  pub try_catch-err : (e : Error) → (m s).0 ≡ err e → try_catch m k s ≡ k e (m s).1
  unfolding try_catch
  try_catch-err e h = ap (λ r. handle r k (m s).1) h

module _ {ℓ} {S A : Type ℓ} where
  settled :
      (r : Result A) (s : S)
      → try_catch ((λ t. (r, t)) >>= λ a. pure (ok a)) (λ e. pure (err e)) s ≡ (ok r, s)
  unfolding try_catch ◌>>=◌ pure
  settled (ok a) s = refl
  settled (err e) s = refl

  attempt_lem : (m : Exec S A) (s : S) → attempt m s ≡ (ok (m s).0, (m s).1)
  unfolding attempt try_catch ◌>>=◌
  attempt_lem m s = unfold try_catch ◌>>=◌ in settled (m s).0 (m s).1

-- What follows an attempt goes on by its result.
pub attempt-bind {ℓ} :
    {S A B : Type ℓ} (m : Exec S A) (k : Result A → Exec S B) (s : S)
    → (attempt m >>= k) s ≡ k (m s).0 (m s).1
unfolding ◌>>=◌
attempt-bind m k s = ap (λ p. continue p.0 k p.1) (attempt_lem m s)

-- An action that cannot throw.
abbrev pub Total {ℓ} : {S : Type ℓ} → Exec S Unit → Type ℓ
Total {S} m = (s : S) → (m s).0 ≡ ok tt

module _ {ℓ} {S : Type ℓ} where
  swallowed : (r : Result Unit) (s : S) → (handle r (λ _. pure tt) s).0 ≡ ok tt
  unfolding pure
  swallowed (ok a) s = refl
  swallowed (err e) s = refl

  -- `try { m } catch {}` does not throw.
  pub Total-try_catch : (m : Exec S Unit) → Total (try_catch m (λ _. pure tt))
  unfolding try_catch
  Total-try_catch m s = swallowed (m s).0 (m s).1

  pub Total-pure : Total (pure {S = S} tt)
  unfolding pure
  Total-pure s = refl

  pub Total-bind : (m n : Exec S Unit) → Total m → Total n → Total (m >>= λ _. n)
  Total-bind m n hm hn s = ap (λ p. p.0) (bind-ok m (λ _. n) s tt (hm s)) ∙ hn (m s).1

  pub Total-for_each :
      {A : Type ℓ} (xs : List A) (body : A → Exec S Unit)
      → ((x : A) → Total (body x))
      → Total (for_each xs body)
  unfolding for_each
  Total-for_each [] body h = Total-pure
  Total-for_each (x ∷ xs) body h = Total-bind (body x) _ (h x) (Total-for_each xs body h)

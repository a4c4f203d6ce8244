-- ===== src/Exec.antt =====
-- Asynchronous methods that change the world and may throw. What was written before a throw stays
-- written, so the state comes back beside the error too.
pub mod Moves
pub mod Laws
pub mod Triple
use Prim.Native.String.{String}
use mathlib.Core.Option.{Option, none, some}
use mathlib.Core.List.{List, [], ◌∷◌}

-- What a promise can reject with. `external` carries the message of a runtime, shell or store.
pub data Error : Type 0 where
  external : String → Error
  row_not_found unique_violation invalid_spec no_runtime_id : Error
  pinned_disabled no_healthy_node missing_ssh_host missing_ssh_auth : Error
  unsupported_mode unsafe_path : Error

pub data Result {ℓ} (A : Type ℓ) : Type ℓ where
  ok : A → Result A
  err : Error → Result A

abbrev pub Exec {ℓ} : Type ℓ → Type ℓ → Type ℓ
Exec S A = S → Result A × S

abbrev pub or_fail {ℓ} : {A : Type ℓ} → Error → Option A → Result A
or_fail e none = err e
or_fail e (some a) = ok a

module _ {ℓ} {S A : Type ℓ} where
  unfoldable pub pure : A → Exec S A
  pure a s = (ok a, s)

  unfoldable pub raise : Error → Exec S A
  raise e s = (err e, s)

  unfoldable pub gets : (S → A) → Exec S A
  gets f s = (ok (f s), s)

  -- The answer of a call that may throw.
  unfoldable pub lift : Result A → Exec S A
  lift r s = (r, s)

  abbrev pub handle : Result A → (Error → Exec S A) → Exec S A
  handle (ok a) k s = (ok a, s)
  handle (err e) k s = k e s

  -- `try { m } catch (e) { k e }`
  unfoldable pub try_catch : Exec S A → (Error → Exec S A) → Exec S A
  try_catch m k s = let (r, s') = m s in handle r k s'

-- A change of the state that returns nothing.
unfoldable pub modify {ℓ} : {S : Type ℓ} → (S → S) → Exec S Unit
modify f s = (ok tt, f s)

module _ {ℓ} {S A B : Type ℓ} where
  abbrev pub continue : Result A → (A → Exec S B) → Exec S B
  continue (ok a) f s = f a s
  continue (err e) f s = (err e, s)

  infixl 10 ◌>>=◌ ◌>>◌
  -- Opening this opens `pure`, `raise`, `lift`, `gets`, `modify` and `try_catch` too.
  unfoldable pub ◌>>=◌ : Exec S A → (A → Exec S B) → Exec S B
  unfolding pure raise lift gets modify try_catch
  ◌>>=◌ m f s = let (r, s') = m s in continue r f s'

  abbrev pub ◌>>◌ : Exec S A → Exec S B → Exec S B
  m >> n = m >>= λ _. n

-- The result of an action, as a value: a handler goes on by cases on it.
unfoldable pub attempt {ℓ} : {S A : Type ℓ} → Exec S A → Exec S (Result A)
attempt m = try_catch (m >>= λ a. pure (ok a)) (λ e. pure (err e))

-- `for (const x of xs) await body(x)`
unfoldable pub for_each {ℓ} : {S A : Type ℓ} → List A → (A → Exec S Unit) → Exec S Unit
for_each [] body = pure tt
for_each (x ∷ xs) body = body x >>= λ _. for_each xs body

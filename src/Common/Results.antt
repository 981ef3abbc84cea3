-- ===== src/Common/Results.antt =====
-- Rust's `Result`, and code that reads and changes a world and may return an error. What was
-- written before an early return stays written.
use mathlib.Core.Path.{◌≡◌, refl}
use mathlib.Core.Logic.{◌⊎◌, inl, inr}
use mathlib.Core.Option.{Option, none, some}

pub data Result {ℓ} (E : Type 0) (A : Type ℓ) : Type ℓ where
  ok : A → Result E A
  err : E → Result E A

module _ {ℓ} {E : Type 0} {A : Type ℓ} where
  -- Result::map_err
  abbrev pub map_err : {F : Type 0} → (E → F) → Result E A → Result F A
  map_err f (ok a) = ok a
  map_err f (err e) = err (f e)

  -- Result::map
  abbrev pub map_ok : {B : Type ℓ} → (A → B) → Result E A → Result E B
  map_ok f (ok a) = ok (f a)
  map_ok f (err e) = err e

  -- Option::ok_or
  abbrev pub ok_or : E → Option A → Result E A
  ok_or e none = err e
  ok_or e (some a) = ok a

  pub Result-cases : (r : Result E A) → ((a : A) × (r ≡ ok a)) ⊎ ((e : E) × (r ≡ err e))
  Result-cases (ok a) = inl (a, refl)
  Result-cases (err e) = inr (e, refl)

-- The operator `?` before the rest of a function, where the result has no value.
infixl 5 ◌and_ok◌
abbrev pub ◌and_ok◌ : {E : Type 0} → Result E (Unit {0}) → Result E (Unit {0}) → Result E (Unit {0})
ok tt and_ok rest = rest
err e and_ok rest = err e

-- Why a function gave no result: an error, or a panic, which nothing on the way handles.
pub data Fault (E : Type 0) : Type 0 where
  raised : E → Fault E
  panicked : Fault E

abbrev pub map_fault : {E F : Type 0} → (E → F) → Fault E → Fault F
map_fault f (raised e) = raised (f e)
map_fault f panicked = panicked

-- An `async fn` over the world W.
abbrev pub Exec {ℓ} : Type 0 → Type 0 → Type ℓ → Type ℓ
Exec W E A = W → Result E A × W

module _ {W E : Type 0} where
  abbrev pub continue {ℓ κ} :
      {A : Type ℓ} {B : Type κ} → (A → Exec W E B) → Result E A × W → Result E B × W
  continue f (ok a, w) = f a w
  continue f (err e, w) = (err e, w)

  -- The operator `?`, and then the rest of the body.
  infixl 5 ◌>>=◌ ◌>>◌
  abbrev pub ◌>>=◌ {ℓ κ} : {A : Type ℓ} {B : Type κ} → Exec W E A → (A → Exec W E B) → Exec W E B
  (m >>= f) w = continue f (m w)

  abbrev pub ◌>>◌ {ℓ κ} : {A : Type ℓ} {B : Type κ} → Exec W E A → Exec W E B → Exec W E B
  (m >> n) w = continue (λ _. n) (m w)

  -- A value that is computed without the world.
  abbrev pub pure {ℓ} : {A : Type ℓ} → Result E A → Exec W E A
  pure a w = (a, w)

  abbrev pub map_error : {A F : Type 0} → (E → F) → Exec W E A → Exec W F A
  map_error f m w = let (a, w') = m w in (map_err f a, w')

  abbrev pub map_exec : {A B : Type 0} → (A → B) → Exec W E A → Exec W E B
  map_exec f m w = let (a, w') = m w in (map_ok f a, w')

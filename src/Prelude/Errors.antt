-- ===== src/Prelude/Errors.antt =====
-- Go's `error` values and the pair `(value, error)`.
use Prim.Native.String.{String}
use Prim.Native.String
use mathlib.Core.Path.{◌≡◌, refl}
use mathlib.Core.Logic.{◌⊎◌, inl, inr}
use mathlib.Core.Bool.{Bool, true, false}

-- `msg` is an error made by `fmt.Errorf` with no `%w` or by another package, `wrap p e` one made by
-- `fmt.Errorf("p: %w", e)`, and `paused` the package variable `ErrExecutionPaused`.
pub data Err : Type 0 where
  msg : String → Err
  wrap : String → Err → Err
  paused : Err

-- `err.Error()`
unfoldable pub error_text : Err → String
error_text (msg s) = s
error_text (wrap p e) = String.◌++◌ (String.◌++◌ p ": ") (error_text e)
error_text paused = "execution paused for wait step"

pub data Result {ℓ} (A : Type ℓ) : Type ℓ where
  ok : A → Result A
  err : Err → Result A

pub Result-cases {ℓ} :
    {A : Type ℓ} (r : Result A) → ((a : A) × (r ≡ ok a)) ⊎ ((e : Err) × (r ≡ err e))
Result-cases (ok a) = inl (a, refl)
Result-cases (err e) = inr (e, refl)

pub Verdict-cases : (r : Result Bool) → (r ≡ ok true) ⊎ ((r ≡ ok false) ⊎ ((e : Err) × (r ≡ err e)))
Verdict-cases (ok true) = inl refl
Verdict-cases (ok false) = inr (inl refl)
Verdict-cases (err e) = inr (inr (e, refl))

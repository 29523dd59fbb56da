-- ===== src/Failure.antt =====
-- Go errors: `errors.New` and `fmt.Errorf` without a wrapped error (`failure`), `fmt.Errorf` with
-- `%w` (`wrap`), and the structured errors that Graybox tells apart with `errors.Is` and `errors.As`:
-- those of a body that cannot be compared, `usageError`, storage.ErrNotFound,
-- storage.ErrInvalidRecording, storage.ErrUnsupportedSchema and flag.ErrHelp.
use graybox_core.Prelude.{ℕ, Bool, true, false, if◌then◌else◌, ◌≡◌, ◌⊎◌, inl, inr, refl}
use graybox_core.Text.{Str}
use mathlib.Core.Path.{subst}

-- `BodySide`
pub data BodySide : Type 0 where
  baseline_side current_side : BodySide

-- `BodyUnavailableError`
pub record BodyUnavailable : Type 0 where
  pub side : BodySide
  pub captured_size : ℕ
  pub observed_size : ℕ
  pub truncated : Bool
  pub complete : Bool
  pub withheld : Bool

pub data Error : Type 0 where
  failure : Str → Error
  wrap : Str → Error → Error
  body_unavailable : BodyUnavailable → Error
  usage : Str → Error
  not_found invalid_recording unsupported_schema help : Error

-- `errors.Is(err, ErrBodyUnavailable)`: `BodyUnavailableError.Unwrap` gives `ErrBodyUnavailable`.
unfoldable pub is_body_unavailable : Error → Bool
is_body_unavailable (failure m) = false
is_body_unavailable (wrap m e) = is_body_unavailable e
is_body_unavailable (body_unavailable b) = true
is_body_unavailable (usage m) = false
is_body_unavailable not_found = false
is_body_unavailable invalid_recording = false
is_body_unavailable unsupported_schema = false
is_body_unavailable help = false

-- `errors.Is(err, storage.ErrNotFound)`
unfoldable pub is_not_found : Error → Bool
is_not_found (failure m) = false
is_not_found (wrap m e) = is_not_found e
is_not_found (body_unavailable b) = false
is_not_found (usage m) = false
is_not_found not_found = true
is_not_found invalid_recording = false
is_not_found unsupported_schema = false
is_not_found help = false

-- What `BodyUnavailableError.Error` says after naming the side.
pub data Reason : Type 0 where
  reason_withheld reason_truncated_incomplete reason_truncated reason_incomplete reason_other :
      Reason

unfoldable pub unavailable_reason : BodyUnavailable → Reason
unavailable_reason e =
    if e.withheld
    then reason_withheld
    else if e.truncated
    then (if e.complete then reason_truncated else reason_truncated_incomplete)
    else if e.complete
    then reason_other
    else reason_incomplete

-- A Go function's `(value, error)` where the value is unused on an error.
pub data Result {ℓ} (A : Type ℓ) : Type ℓ where
  ok : A → Result A
  err : Error → Result A

infixl 5 ◌>>=◌
abbrev pub ◌>>=◌ {ℓ κ} : {A : Type ℓ} {B : Type κ} → Result A → (A → Result B) → Result B
ok a >>= f = f a
err e >>= f = err e

pub Result-cases {ℓ} :
    {A : Type ℓ} (r : Result A) → ((a : A) × (r ≡ ok a)) ⊎ ((e : Error) × (r ≡ err e))
Result-cases (ok a) = inl (a, refl)
Result-cases (err e) = inr (e, refl)

-- A predicate on the value of a result, with the rules by which it passes through code.
abbrev pub Yields : {A : Type 0} → (A → Type 0) → Result A → Type 0
Yields P (ok a) = P a
Yields P (err e) = Unit

pub Yields-if :
    {A : Type 0} (P : A → Type 0) (b : Bool) (x y : Result A)
    → Yields P x
    → Yields P y
    → Yields P (if b then x else y)
Yields-if P true x y p q = p
Yields-if P false x y p q = q

pub Yields-bind :
    {A B : Type 0} (P : A → Type 0) (Q : B → Type 0) (r : Result A) (f : A → Result B)
    → Yields P r
    → ((a : A) → P a → Yields Q (f a))
    → Yields Q (r >>= f)
Yields-bind P Q (ok a) f p h = h a p
Yields-bind P Q (err e) f p h = tt

pub Yields-mono :
    {A : Type 0} (P Q : A → Type 0) (r : Result A) → ((a : A) → P a → Q a) → Yields P r → Yields Q r
Yields-mono P Q (ok a) f p = f a p
Yields-mono P Q (err e) f p = tt

pub Yields-any : {A : Type 0} (r : Result A) → Yields (λ a. Unit {0}) r
Yields-any (ok a) = tt
Yields-any (err e) = tt

-- What every value satisfies, a given one does.
pub Yields-ok : {A : Type 0} (P : A → Type 0) (r : Result A) (a : A) → Yields P r → r ≡ ok a → P a
Yields-ok P r a h e = subst (Yields P) e h

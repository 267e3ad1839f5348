-- ===== src/Base/Result.antt =====
-- The exceptions that the services raise. An operation on the database returns a `Result`: where it
-- raises, the caller's session is rolled back, so that no state stands beside the error.
use Prim.Native.String.{String}
use mathlib.Core.Path.{◌≡◌, refl}
use mathlib.Core.Logic.{◌⊎◌, inl, inr}

pub data Error : Type 0 where
  human_action_required : Error  -- selection_service.HumanActionRequired
  merge_error : Error  -- merge_service.MergeError
  value_error : Error
  lookup_error : Error
  multiple_results : Error  -- a `scalar_one_or_none` over two rows or more
  assertion_error : Error
  integrity_error : Error  -- sqlalchemy.exc.IntegrityError, of a unique constraint
  no_result : Error  -- sqlalchemy.exc.NoResultFound, of a `scalar_one` over no row
  provider_error : String → Error  -- an exception of a provider, with its class's name

pub data Result {ℓ} (A : Type ℓ) : Type ℓ where
  err : Error → Result A
  ok : A → Result A

pub ok-injective {ℓ} : {A : Type ℓ} {a b : A} → ok a ≡ ok b → a ≡ b
ok-injective h = cc

pub Result-cases {ℓ} :
    {A : Type ℓ} (r : Result A) → ((a : A) × (r ≡ ok a)) ⊎ ((e : Error) × (r ≡ err e))
Result-cases (ok a) = inl (a, refl)
Result-cases (err e) = inr (e, refl)

-- The rest of a call, which an exception passes over.
abbrev pub and_then {ℓ κ} : {A : Type ℓ} {B : Type κ} → (rest : A → Result B) → Result A → Result B
and_then rest (err raised) = err raised
and_then rest (ok value) = rest value

infixl 5 ◌>>=◌
abbrev pub ◌>>=◌ {κ ℓ} : {B : Type κ} {A : Type ℓ} → (call : Result A) → (A → Result B) → Result B
call >>= rest = and_then rest call

-- ===== src/Base/Table/Scalar.antt =====
-- `scalar_one_or_none` where at most one row meets the condition.
use Prim.Native.Nat.{◌≤◌}
use mathlib.Core.Path.{◌≡◌, refl}
use mathlib.Core.Logic.{◌⊎◌, inl, inr}
use mathlib.Core.Bool.{Bool, false}
use mathlib.Core.Option.{none, some}
use mathlib.Core.List.{List, [], ◌∷◌}
use native.Mathlib.Omega.{arith}
use nyc_rental_listing_agent.Base.Tests.{Bool-cases}
use nyc_rental_listing_agent.Base.Result.{ok}
use nyc_rental_listing_agent.Base.Table.{select, count, scalar_one_or_none}
use nyc_rental_listing_agent.Base.Table.Rules.{count-zero, select-none}

-- What the query returns, and how many rows there are.
pub scalar-cases {ℓ} :
    {A : Type ℓ} (p : A → Bool) (xs : List A)
    → count p xs ≤ 1
    → ((scalar_one_or_none (select p xs) ≡ ok none) × (count p xs ≡ 0))
      ⊎ ((x : A) × (scalar_one_or_none (select p xs) ≡ ok (some x)) × (count p xs ≡ 1))
scalar-cases p [] h = inl (refl, refl)
scalar-cases {A = A} p (x ∷ xs) h = elim (Bool-cases (p x)) [
  | inl e ↦
      let none_left : count p xs ≡ 0 = omega (arith, rw e at h) in
      inr (x, rw (e, select-none p xs (count-zero p xs none_left)), rw (e, none_left))
  | inr e ↦ skip e (scalar-cases p xs (omega (arith, rw e at h)))
]
  where
    skip :
        p x ≡ false
        → ((scalar_one_or_none (select p xs) ≡ ok none) × (count p xs ≡ 0))
          ⊎ ((y : A) × (scalar_one_or_none (select p xs) ≡ ok (some y)) × (count p xs ≡ 1))
        → ((scalar_one_or_none (select p (x ∷ xs)) ≡ ok none) × (count p (x ∷ xs) ≡ 0))
          ⊎ ((y : A) × (scalar_one_or_none (select p (x ∷ xs)) ≡ ok (some y))
              × (count p (x ∷ xs) ≡ 1))
    skip e (inl (r, c)) = inl (rw e r, rw e (omega (arith, c)))
    skip e (inr (y, r, c)) = inr (y, rw e r, rw e (omega (arith, c)))

-- A table of one row.
pub count-single {ℓ} : {A : Type ℓ} (p : A → Bool) (x : A) → count p (x ∷ []) ≤ 1
count-single p x = elim (Bool-cases (p x)) [
  | inl e ↦ rw e (omega arith)
  | inr e ↦ rw e (omega arith)
]

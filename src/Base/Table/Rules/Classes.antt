-- ===== src/Base/Table/Rules/Classes.antt =====
-- Classes of rows: where a class has one row at most, what a query finds, and updates that move rows.
use Prim.Native.Nat.{◌≤◌, ◌<◌}
use mathlib.Core.Path.{◌≡◌, refl, ap, subst}
use mathlib.Core.Logic.{inl, inr}
use mathlib.Core.Bool.{Bool, true, false, ◌&&◌}
use mathlib.Core.Option.{some}
use mathlib.Core.List.{List, [], ◌∷◌, ◌++◌}
use native.Mathlib.Omega.{arith}
use nyc_rental_listing_agent.Base.Tests.{if◌then◌else◌, Bool-cases}
use nyc_rental_listing_agent.Base.Lists.{All, All-mono}
use nyc_rental_listing_agent.Base.Table.{
  select, exists, count, update_where, find_row, place, order_by,
}
use nyc_rental_listing_agent.Base.Table.Rules.Rows.{exists-count, only_row}

module _ {ℓ} {A : Type ℓ} (p : A → Bool) where
  -- What was selected meets the condition.
  pub All-select_self : (xs : List A) → All (λ x. p x ≡ true) (select p xs)
  All-select_self [] = tt
  All-select_self (x ∷ xs) = elim (Bool-cases (p x)) [
    | inl e ↦ rw e (e, All-select_self xs)
    | inr e ↦ rw e (All-select_self xs)
  ]

module _ {ℓ κ} {A : Type ℓ} (P : A → Type κ) (before : A → A → Bool) where
  All-place : (x : A) (xs : List A) → P x → All P xs → All P (place before x xs)
  unfolding place
  All-place x [] h k = (h, tt)
  All-place x (y ∷ ys) h k = elim (Bool-cases (before x y)) [
    | inl e ↦ rw e (h, k)
    | inr e ↦ rw e (k.0, All-place x ys h k.1)
  ]

  pub All-order_by : (xs : List A) → All P xs → All P (order_by before xs)
  unfolding order_by
  All-order_by [] h = tt
  All-order_by (x ∷ xs) h = All-place x (order_by before xs) h.0 (All-order_by xs h.1)

module _ {ℓ} {A : Type ℓ} (p : A → Bool) where
  pub select-none : (xs : List A) → All (λ x. p x ≡ false) xs → select p xs ≡ []
  select-none [] h = refl
  select-none (x ∷ xs) h = rw h.0 (select-none xs h.1)

  pub count-none : (xs : List A) → All (λ x. p x ≡ false) xs → count p xs ≡ 0
  count-none [] h = refl
  count-none (x ∷ xs) h = rw h.0 (omega (arith, count-none xs h.1))

  pub update-none : (f : A → A) (xs : List A) → All (λ x. p x ≡ false) xs → update_where p f xs ≡ xs
  update-none f [] h = refl
  update-none f (x ∷ xs) h = rw h.0 (ap (λ r. x ∷ r) (update-none f xs h.1))

  pub find_row_meets : (xs : List A) {x : A} → find_row p xs ≡ some x → p x ≡ true
  find_row_meets [] e = cc
  find_row_meets (y ∷ xs) {x} e = elim (Bool-cases (p y)) [
    | inl b ↦ subst (λ z. p z ≡ true) (cc (rw b at e)) b
    | inr b ↦ find_row_meets xs (rw b at e)
  ]

module _ {ℓ} {A : Type ℓ} where
  pub count-both :
      (a b : A → Bool) (xs : List A)
      → All (λ x. b x ≡ true) xs
      → count a xs ≤ count (λ x. a x && b x) xs
  count-both a b [] h = omega arith
  count-both a b (x ∷ xs) h = elim (Bool-cases (a x)) [
    | inl e ↦ rw (e, h.0) (omega (arith, count-both a b xs h.1))
    | inr e ↦ rw e (omega (arith, count-both a b xs h.1))
  ]

  -- An update that takes class `a` into class `b`.
  pub count-update_into :
      (a b p : A → Bool) (f : A → A)
      → ((x : A) → a x ≡ true → b (if p x then f x else x) ≡ true)
      → (xs : List A) → count a xs ≤ count b (update_where p f xs)
  count-update_into a b p f into [] = omega arith
  count-update_into a b p f into (x ∷ xs) = elim (Bool-cases (a x)) [
    | inl e ↦ rw (e, into x e) (omega (arith, count-update_into a b p f into xs))
    | inr e ↦ rw e (omega (arith, count-update_into a b p f into xs))
  ]

  -- Where one row at most is in class `a`, and a row of it is in `b`, no row of `a` is outside.
  pub count-outside :
      (a b c : A → Bool) (xs : List A)
      → ((x : A) → b x ≡ true → c x ≡ false)
      → 0 < count (λ x. a x && b x) xs
      → count a xs ≤ 1
      → count (λ x. a x && c x) xs ≡ 0
  count-outside a b c xs apart h k = count-none _ xs (
      All-mono _
        (λ x inside. elim (Bool-cases (a x)) [ inl e ↦ rw (e, apart x (inside e)) | inr e ↦ rw e ])
        xs (only_row a b xs h k))

  pub exists-counted : (q : A → Bool) (xs : List A) → 0 < count q xs → exists q xs ≡ true
  exists-counted q xs h = elim (Bool-cases (exists q xs)) [
    | inl e ↦ e
    | inr e ↦ absurd (omega (arith, exists-count q xs e))
  ]

  pub find_row-count :
      (p : A → Bool) (xs : List A) {x : A} → find_row p xs ≡ some x → 0 < count p xs
  find_row-count p [] e = cc
  find_row-count p (y ∷ xs) e = elim (Bool-cases (p y)) [
    | inl b ↦ rw b (omega arith)
    | inr b ↦ rw b (omega (arith, find_row-count p xs (rw b at e)))
  ]

  pub find_row-append_new :
      (p : A → Bool) (xs : List A) (x : A)
      → All (λ y. p y ≡ false) xs
      → p x ≡ true
      → find_row p (xs ++ x ∷ []) ≡ some x
  find_row-append_new p [] x h e = rw e
  find_row-append_new p (y ∷ xs) x h e = rw h.0 (find_row-append_new p xs x h.1 e)

  pub count-exists : (q : A → Bool) (xs : List A) → exists q xs ≡ true → 0 < count q xs
  count-exists q [] h = cc
  count-exists q (x ∷ xs) h = elim (Bool-cases (q x)) [
    | inl e ↦ rw e (omega arith)
    | inr e ↦ rw e (omega (arith, count-exists q xs (rw e at h)))
  ]

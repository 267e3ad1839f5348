-- ===== src/Base/Table/Rules/Rows.antt =====
-- What the statements on a table keep of its rows, and how many rows of a class they leave.
use Prim.Native.Nat.{ℕ, zero, suc, ◌+◌, ◌≤◌, ◌<◌}
use mathlib.Core.Path.{◌≡◌, refl, subst}
use mathlib.Core.Logic.{inl, inr}
use mathlib.Core.Bool.{Bool, true, false, ◌&&◌}
use mathlib.Core.Option.{some}
use mathlib.Core.List.{List, [], ◌∷◌, ◌++◌}
use native.Mathlib.Omega.{arith}
use nyc_rental_listing_agent.Base.Tests.{if◌then◌else◌, Bool-cases, &&_left}
use nyc_rental_listing_agent.Base.Result.{ok}
use nyc_rental_listing_agent.Base.Lists.{take, All, All-mono}
use nyc_rental_listing_agent.Base.Table.{
  select, exists, count, update_where, find_row, place, order_by, scalar_one_or_none,
}

module _ {ℓ κ} {A : Type ℓ} (P : A → Type κ) (p : A → Bool) where
  -- An update keeps a predicate of all rows, if it does on the rows that it writes.
  pub All-update :
      (f : A → A)
      → ((x : A) → p x ≡ true → P x → P (f x))
      → (xs : List A) → All P xs
      → All P (update_where p f xs)
  All-update f keep [] h = tt
  All-update f keep (x ∷ xs) h = elim (Bool-cases (p x)) [
    | inl e ↦ rw e (keep x e h.0, All-update f keep xs h.1)
    | inr e ↦ rw e (h.0, All-update f keep xs h.1)
  ]

  -- What an update writes, and what it leaves.
  pub All-update_if :
      (f : A → A)
      → ((x : A) → p x ≡ true → P (f x))
      → ((x : A) → p x ≡ false → P x)
      → (xs : List A) → All P (update_where p f xs)
  All-update_if f written left [] = tt
  All-update_if f written left (x ∷ xs) = elim (Bool-cases (p x)) [
    | inl e ↦ rw e (written x e, All-update_if f written left xs)
    | inr e ↦ rw e (left x e, All-update_if f written left xs)
  ]

  -- The same as `All-update`, where what the rows satisfy changes too.
  pub All-update_to {μ} :
      {Q : A → Type μ} (f : A → A)
      → ((x : A) → P x → Q x)
      → (xs : List A) → All (λ x. p x ≡ true → P x → Q (f x)) xs
      → All P xs
      → All Q (update_where p f xs)
  All-update_to f lift [] keep h = tt
  All-update_to f lift (x ∷ xs) keep h = elim (Bool-cases (p x)) [
    | inl e ↦ rw e (keep.0 e h.0, All-update_to f lift xs keep.1 h.1)
    | inr e ↦ rw e (lift x h.0, All-update_to f lift xs keep.1 h.1)
  ]

  pub All-select : (xs : List A) → All P xs → All P (select p xs)
  All-select [] h = tt
  All-select (x ∷ xs) h = elim (Bool-cases (p x)) [
    | inl e ↦ rw e (h.0, All-select xs h.1)
    | inr e ↦ rw e (All-select xs h.1)
  ]

  pub All-find : (xs : List A) {x : A} → All P xs → find_row p xs ≡ some x → P x
  All-find [] h e = cc
  All-find (y ∷ xs) {x} h e = elim (Bool-cases (p y)) [
    | inl b ↦ subst P (cc (rw b at e)) h.0
    | inr b ↦ All-find xs h.1 (rw b at e)
  ]

module _ {ℓ} {A : Type ℓ} (q : A → Bool) where
  pub count-append : (xs ys : List A) → count q (xs ++ ys) ≡ count q xs + count q ys
  count-append [] ys = omega arith
  count-append (x ∷ xs) ys = omega (arith, count-append xs ys)

  pub count-select-le : (p : A → Bool) (xs : List A) → count q (select p xs) ≤ count q xs
  count-select-le p [] = omega arith
  count-select-le p (x ∷ xs) = elim (Bool-cases (p x)) [
    | inl e ↦ rw e (omega (arith, count-select-le p xs))
    | inr e ↦ rw e (omega (arith, count-select-le p xs))
  ]

  pub count-take-le : (n : ℕ) (xs : List A) → count q (take n xs) ≤ count q xs
  count-take-le zero xs = omega arith
  count-take-le (suc n) [] = omega arith
  count-take-le (suc n) (x ∷ xs) = omega (arith, count-take-le n xs)

  count-place :
      (before : A → A → Bool) (x : A) (xs : List A)
      → count q (place before x xs) ≡ (if q x then 1 else 0) + count q xs
  unfolding place
  count-place before x [] = refl
  count-place before x (y ∷ ys) = elim (Bool-cases (before x y)) [
    | inl e ↦ rw e
    | inr e ↦ rw e (omega (arith, count-place before x ys))
  ]

  pub count-order_by :
      (before : A → A → Bool) (xs : List A) → count q (order_by before xs) ≡ count q xs
  unfolding order_by
  count-order_by before [] = refl
  count-order_by before (x ∷ xs) =
      omega (arith, count-place before x (order_by before xs), count-order_by before xs)

  -- An update makes no new member of a class, if each row that it moves in was there before.
  pub count-update-le {κ} :
      (P : A → Type κ) (p : A → Bool) (f : A → A)
      → ((x : A) → P x → p x ≡ true → q (f x) ≡ true → q x ≡ true)
      → (xs : List A) → All P xs
      → count q (update_where p f xs) ≤ count q xs
  count-update-le P p f back [] h = omega arith
  count-update-le P p f back (x ∷ xs) h = elim (Bool-cases (p x)) [
    | inl e ↦ rw e (elim (Bool-cases (q (f x))) [
      | inl c ↦ rw (c, back x h.0 e c) (omega (arith, count-update-le P p f back xs h.1))
      | inr c ↦ rw c (omega (arith, count-update-le P p f back xs h.1))
    ])
    | inr e ↦ rw e (omega (arith, count-update-le P p f back xs h.1))
  ]

  pub exists-count : (xs : List A) → exists q xs ≡ false → count q xs ≡ 0
  exists-count [] h = refl
  exists-count (x ∷ xs) h = elim (Bool-cases (q x)) [
    | inl e ↦ cc (rw e at h)
    | inr e ↦ rw e (omega (arith, exists-count xs (rw e at h)))
  ]

module _ {ℓ} {A : Type ℓ} where
  pub count-zero : (a : A → Bool) (xs : List A) → count a xs ≡ 0 → All (λ x. a x ≡ false) xs
  count-zero a [] h = tt
  count-zero a (x ∷ xs) h = elim (Bool-cases (a x)) [
    | inl e ↦ absurd (omega (arith, rw e at h))
    | inr e ↦ (e, count-zero a xs (omega (arith, rw e at h)))
  ]

  pub count_mono :
      (a b : A → Bool) (xs : List A) → ((x : A) → a x ≡ true → b x ≡ true) → count a xs ≤ count b xs
  count_mono a b [] h = omega arith
  count_mono a b (x ∷ xs) h = elim (Bool-cases (a x)) [
    | inl e ↦ rw (e, h x e) (omega (arith, count_mono a b xs h))
    | inr e ↦ rw e (omega (arith, count_mono a b xs h))
  ]

  -- Where one row at most is in class `a`, and a row of it is in `b`, all rows of `a` are in `b`.
  pub only_row :
      (a b : A → Bool) (xs : List A)
      → 0 < count (λ x. a x && b x) xs
      → count a xs ≤ 1
      → All (λ x. a x ≡ true → b x ≡ true) xs
  only_row a b [] h k = tt
  only_row a b (x ∷ xs) h k = elim (Bool-cases (a x)) [
    | inl e ↦
        let zero_left : count a xs ≡ 0 = omega (arith, rw e at k) in
        let few : count (λ y. a y && b y) xs ≤ count a xs =
          count_mono (λ y. a y && b y) a xs (λ y. &&_left (a y) (b y)) in
        (
          λ _. elim (Bool-cases (b x)) [
            | inl f ↦ f
            | inr f ↦ absurd (omega (arith, rw (e, f) at h))
          ],
          All-mono _ (λ y n t. cc) xs (count-zero a xs zero_left),
        )
    | inr e ↦ (λ t. cc, only_row a b xs (omega (arith, rw e at h)) (omega (arith, rw e at k)))
  ]

  -- A part of a table meets in the table whatever it meets in itself.
  pub members_counted :
      (q : A → A → Bool) (zs cs : List A)
      → ((p : A → Bool) → count p cs ≤ count p zs)
      → All (λ x. q x x ≡ true → 0 < count (q x) zs) cs
  members_counted q zs [] h = tt
  members_counted q zs (c ∷ cs) h =
      (λ e. omega (arith, h (q c), first e), members_counted q zs cs (λ p. omega (arith, h p)))
    where
      first : q c c ≡ true → 0 < count (q c) (c ∷ cs)
      first e = rw e (omega arith)

  -- What `scalar_one_or_none` returns is a row that meets the condition.
  pub scalar-select :
      (p : A → Bool) (xs : List A) {x : A}
      → scalar_one_or_none (select p xs) ≡ ok (some x)
      → (0 < count p xs) × (p x ≡ true)
  scalar-select p [] e = cc
  scalar-select p (y ∷ ys) {x} e = elim (Bool-cases (p y)) [
    | inl b ↦ (rw b (omega arith), subst (λ z. p z ≡ true) (cc (only (select p ys) (rw b at e))) b)
    | inr b ↦ rw b (let (c, d) = scalar-select p ys (rw b at e) in (omega arith, d))
  ]
    where
      only : (r : List A) → scalar_one_or_none (y ∷ r) ≡ ok (some x) → some y ≡ some x
      only [] h = cc
      only (z ∷ r) h = cc

  pub find_row-counted :
      (p : A → Bool) (xs : List A)
      → 0 < count p xs
      → (x : A) × (find_row p xs ≡ some x) × (p x ≡ true)
  find_row-counted p [] h = absurd (omega arith)
  find_row-counted p (x ∷ xs) h = elim (Bool-cases (p x)) [
    | inl e ↦ (x, rw e, e)
    | inr e ↦ skip e (find_row-counted p xs (omega (arith, rw e at h)))
  ]
    where
      skip :
          p x ≡ false
          → (y : A) × (find_row p xs ≡ some y) × (p y ≡ true)
          → (y : A) × (find_row p (x ∷ xs) ≡ some y) × (p y ≡ true)
      skip e (y, f, g) = (y, rw e f, g)

  -- An update that keeps a class keeps its number of rows.
  pub count-update_same :
      (q p : A → Bool) (f : A → A)
      → ((x : A) → q (f x) ≡ q x)
      → (xs : List A) → count q (update_where p f xs) ≡ count q xs
  count-update_same q p f same [] = refl
  count-update_same q p f same (x ∷ xs) = elim (Bool-cases (p x)) [
    | inl e ↦ rw (e, same x) (omega (arith, count-update_same q p f same xs))
    | inr e ↦ rw e (omega (arith, count-update_same q p f same xs))
  ]

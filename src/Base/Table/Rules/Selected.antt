-- ===== src/Base/Table/Rules/Selected.antt =====
-- The rows that a SELECT returns, where the table changes.
use Prim.Native.Nat.{suc}
use mathlib.Core.Path.{◌≡◌, refl, sym, ap, subst}
use mathlib.Core.Logic.{inl, inr}
use mathlib.Core.Bool.{Bool, true, false}
use mathlib.Core.Option.{none, some}
use mathlib.Core.List.{List, [], ◌∷◌, ◌++◌}
use nyc_rental_listing_agent.Base.Tests.{Bool-cases}
use nyc_rental_listing_agent.Base.Lists.{length}
use nyc_rental_listing_agent.Base.Result.{ok}
use nyc_rental_listing_agent.Base.Table.{select, update_where, scalar_one_or_none, find_row}

pub select-append {ℓ} :
    {A : Type ℓ} (p : A → Bool) (xs ys : List A) → select p (xs ++ ys) ≡ select p xs ++ select p ys
select-append p [] ys = refl
select-append p (x ∷ xs) ys = elim (Bool-cases (p x)) [
  | inl e ↦ rw e (ap (λ r. x ∷ r) (select-append p xs ys))
  | inr e ↦ rw e (select-append p xs ys)
]

-- An update that keeps a class is an update of the class.
pub select-update {ℓ} :
    {A : Type ℓ} (p q : A → Bool) (f : A → A)
    → ((x : A) → p (f x) ≡ p x)
    → (xs : List A) → select p (update_where q f xs) ≡ update_where q f (select p xs)
select-update p q f same [] = refl
select-update p q f same (x ∷ xs) = elim (Bool-cases (q x)) [
  | inl e ↦ elim (Bool-cases (p x)) [
    | inl d ↦ rw (e, same x, d, e) (ap (λ r. f x ∷ r) (select-update p q f same xs))
    | inr d ↦ rw (e, same x, d) (select-update p q f same xs)
  ]
  | inr e ↦ elim (Bool-cases (p x)) [
    | inl d ↦ rw (e, d, e) (ap (λ r. x ∷ r) (select-update p q f same xs))
    | inr d ↦ rw (e, d) (select-update p q f same xs)
  ]
]

pub scalar-none {ℓ} : {A : Type ℓ} (xs : List A) → scalar_one_or_none xs ≡ ok none → xs ≡ []
scalar-none [] e = refl
scalar-none (x ∷ []) e = cc
scalar-none (x ∷ y ∷ xs) e = cc

pub scalar-head {ℓ} :
    {A : Type ℓ} (xs : List A) {x : A} → scalar_one_or_none xs ≡ ok (some x) → xs ≡ x ∷ []
scalar-head [] e = cc
scalar-head (x ∷ []) e = cc e
scalar-head (x ∷ y ∷ xs) e = cc

-- An update that keeps a class finds its row.
pub find_row-update {ℓ} :
    {A : Type ℓ} (p : A → Bool) (f : A → A)
    → ((x : A) → p (f x) ≡ p x)
    → (xs : List A) {x : A} → find_row p xs ≡ some x
    → find_row p (update_where p f xs) ≡ some (f x)
find_row-update p f same [] e = cc
find_row-update p f same (y ∷ ys) {x} e = elim (Bool-cases (p y)) [
  | inl h ↦ rw (h, same y, h) (subst (λ z. some (f y) ≡ some (f z)) (cc (rw h at e)) refl)
  | inr h ↦ rw (h, h) (find_row-update p f same ys (rw h at e))
]

-- The same for an update of another class.
pub find_row-update_if {ℓ} :
    {A : Type ℓ} (p q : A → Bool) (f : A → A)
    → ((x : A) → p (f x) ≡ p x)
    → (xs : List A) {x : A} → find_row p xs ≡ some x
    → q x ≡ true
    → find_row p (update_where q f xs) ≡ some (f x)
find_row-update_if p q f same [] e t = cc
find_row-update_if p q f same (y ∷ ys) {x} e t = elim (Bool-cases (p y)) [
  | inl h ↦
      let found : some y ≡ some x = rw h at e in
      let same_row : y ≡ x = cc found in
      let here : q y ≡ true = subst (λ z. q z ≡ true) (sym same_row) t in
      rw (here, same y, h) (ap (λ z. some (f z)) same_row)
  | inr h ↦ elim (Bool-cases (q y)) [
    | inl c ↦ rw (c, same y, h) (find_row-update_if p q f same ys (rw h at e) t)
    | inr c ↦ rw (c, h) (find_row-update_if p q f same ys (rw h at e) t)
  ]
]

-- A query with a first row finds it.
pub select-find {ℓ} :
    {A : Type ℓ} (p : A → Bool) (xs : List A) {x : A} {rest : List A}
    → select p xs ≡ x ∷ rest
    → find_row p xs ≡ some x
select-find p [] e = cc
select-find p (y ∷ ys) e = elim (Bool-cases (p y)) [
  | inl h ↦ rw h (cc (rw h at e))
  | inr h ↦ rw h (select-find p ys (rw h at e))
]

-- An update of rows outside a class keeps the class.
pub select-update_apart {ℓ} :
    {A : Type ℓ} (p q : A → Bool) (f : A → A)
    → ((x : A) → q x ≡ true → p x ≡ false)
    → ((x : A) → p (f x) ≡ p x)
    → (xs : List A) → select p (update_where q f xs) ≡ select p xs
select-update_apart p q f apart same [] = refl
select-update_apart p q f apart same (x ∷ xs) = elim (Bool-cases (q x)) [
  | inl e ↦ rw (e, same x, apart x e) (select-update_apart p q f apart same xs)
  | inr e ↦ elim (Bool-cases (p x)) [
    | inl d ↦ rw (e, d) (ap (λ r. x ∷ r) (select-update_apart p q f apart same xs))
    | inr d ↦ rw (e, d) (select-update_apart p q f apart same xs)
  ]
]

pub length-update {ℓ} :
    {A : Type ℓ} (q : A → Bool) (f : A → A) (xs : List A) → length (update_where q f xs) ≡ length xs
length-update q f [] = refl
length-update q f (x ∷ xs) = ap (λ n. suc n) (length-update q f xs)

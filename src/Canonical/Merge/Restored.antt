-- ===== src/Canonical/Merge/Restored.antt =====
-- The links that a merge moves, and the table after they are moved back.
use nyc_rental_listing_agent.Base.{
  ℕ, ◌≤◌, ◌<◌, ◌≡◌, refl, sym, ap, ap₂, inl, inr, Bool, true, false, ◌&&◌, not, List, [], ◌∷◌,
  arith, ==_iff, ==_refl, Bool-cases,
}
use nyc_rental_listing_agent.Base.Lists.{All, All-mono2}
use nyc_rental_listing_agent.Base.Table.{select, exists, count, update_where}
use nyc_rental_listing_agent.Base.Table.Rules.{
  count-outside, members_counted, exists-counted, count-exists,
}
use nyc_rental_listing_agent.Model.Listings.{ListingSourceLink}
use nyc_rental_listing_agent.Canonical.Merge.{links_to, link_is, moved_to, link_ids}
use nyc_rental_listing_agent.Canonical.Merge.Reverse.{is_in}

is_in-select :
    (p : ListingSourceLink → Bool) (i : ℕ) (xs : List ListingSourceLink)
    → is_in (link_ids (select p xs)) i ≡ exists (λ y. link_is i y && p y) xs
is_in-select p i [] = refl
is_in-select p i (x ∷ xs) = elim (Bool-cases (p x)) [
  | inl e ↦ rw e (ground (arith, is_in-select p i xs))
  | inr e ↦ rw e (ground (arith, is_in-select p i xs))
]

-- Where keys are unique, the selected keys are those of the selected rows and of no others.
pub moved_exactly :
    (p : ListingSourceLink → Bool) (xs : List ListingSourceLink)
    → ((i : ℕ) → count (link_is i) xs ≤ 1)
    → All (λ x. is_in (link_ids (select p xs)) x.listing_source_link_id ≡ p x) xs
moved_exactly p xs unique =
    All-mono2 (λ x there apart. rw is_in-select (decide x there apart)) xs
      (members_counted (λ x y. link_is x.listing_source_link_id y && p y) xs xs (λ q. omega arith))
      (members_counted (λ x y. link_is x.listing_source_link_id y && not (p y)) xs xs
        (λ q. omega arith))
  where
    not-there :
        (x : ListingSourceLink)
        → 0 < count (λ y. link_is x.listing_source_link_id y && not (p y)) xs
        → exists (λ y. link_is x.listing_source_link_id y && p y) xs ≡ false
    not-there x h = elim (Bool-cases (exists (λ y. link_is x.listing_source_link_id y && p y) xs)) [
      | inl e ↦ absurd (
          omega (
            arith,
            count-exists _ xs e,
            count-outside (link_is x.listing_source_link_id) (λ y. not (p y)) p xs
                (λ y n. ground (arith, n)) h (unique x.listing_source_link_id),
          ))
      | inr e ↦ e
    ]

    decide :
        (x : ListingSourceLink)
        → ((link_is x.listing_source_link_id x && p x) ≡ true
            → 0 < count (λ y. link_is x.listing_source_link_id y && p y) xs)
        → ((link_is x.listing_source_link_id x && not (p x)) ≡ true
            → 0 < count (λ y. link_is x.listing_source_link_id y && not (p y)) xs)
        → exists (λ y. link_is x.listing_source_link_id y && p y) xs ≡ p x
    decide x there apart = elim (Bool-cases (p x)) [
      | inl e ↦ rw e (exists-counted _ xs (there (rw (e, ==_refl) refl)))
      | inr e ↦ rw e (not-there x (apart (rw (e, ==_refl) refl)))
    ]

pub restored :
    (ids : List ℕ) (s t : ℕ) (xs : List ListingSourceLink)
    → All (λ x. is_in ids x.listing_source_link_id ≡ links_to s x) xs
    → update_where
        (λ l. is_in ids l.listing_source_link_id)
        (moved_to s)
        (update_where (links_to s) (moved_to t) xs)
      ≡ xs
restored ids s t [] h = refl
restored ids s t (x ∷ xs) h = elim (Bool-cases (links_to s x)) [
  | inl e ↦ rw (e, h.0, e) (ap₂ (λ a b. a ∷ b) (back e) (restored ids s t xs h.1))
  | inr e ↦ rw (e, h.0, e) (ap (λ r. x ∷ r) (restored ids s t xs h.1))
]
  where
    back : links_to s x ≡ true → moved_to s x ≡ x
    back e =
        ap (λ c. record x { canonical_listing_id = c })
          (sym ((==_iff x.canonical_listing_id s).0 e))

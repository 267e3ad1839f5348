-- ===== src/Enrichment/Tiering/Bounded.antt =====
-- The bounds of the policy of enrichment/llm/tiering.py.
use nyc_rental_listing_agent.Base.{
  ℕ, ◌+◌, ◌≤◌, ◌≡◌, refl, inl, inr, Bool, true, false, String, Option, none, List, [], ◌∷◌, arith,
  Bool-cases, Option-cases,
}
use nyc_rental_listing_agent.Base.Lists.{length, length-append}
use nyc_rental_listing_agent.Base.Table.{count}
use nyc_rental_listing_agent.Base.Table.Rules.{count-append}
use nyc_rental_listing_agent.Enums.Ops.{ModelTier}
use nyc_rental_listing_agent.Enrichment.Tiering.{
  LlmTaskRequest, TieredOutcome, Attempt, Executor, Validator, is_succeeded, judge, repairable,
  attempt_with, execute_tiered, repair, escalate,
}

abbrev pub is_flagship : Attempt → Bool
is_flagship a = elim a.tier [ ModelTier.flagship_escalation ↦ true | _ ↦ false ]

-- An executor that counts its calls: `calls` has those of the default executor and of the flagship.
abbrev pub tracked {ℓ} : {W : Type ℓ} (bump : ℕ × ℕ → ℕ × ℕ) → Executor W → Executor (W × (ℕ × ℕ))
tracked bump executor request (w, calls) =
    let (result, w') = executor request w in (result, (w', bump calls))

abbrev pub default_call : ℕ × ℕ → ℕ × ℕ
default_call (d, f) = (d + 1, f)

abbrev pub flagship_call : ℕ × ℕ → ℕ × ℕ
flagship_call (d, f) = (d, f + 1)

-- What an outcome promises, where the executors were called so often.
pub record IsBounded (validator : Option Validator) (request : LlmTaskRequest)
    (outcome : TieredOutcome) (default_calls flagship_calls : ℕ) : Type 0 where
  pub defaults : default_calls ≤ 2
  pub some_call : 1 ≤ default_calls
  pub one_flagship : flagship_calls ≤ 1
  pub logged_all : length outcome.attempts ≡ default_calls + flagship_calls
  pub logged_flagship : count is_flagship outcome.attempts ≡ flagship_calls
  pub failed : outcome.needs_human_review ≡ true → is_succeeded outcome.result.status ≡ false
  pub judged_ok :
      outcome.needs_human_review ≡ false
      → judge validator (record request { tier = outcome.tier_used }) outcome.result ≡ none

module _ {ℓ} {W : Type ℓ} (default flagship : Executor W) (validator : Option Validator) where
  abbrev counted_default : Executor (W × (ℕ × ℕ))
  counted_default = tracked default_call default

  abbrev counted_flagship : Executor (W × (ℕ × ℕ))
  counted_flagship = tracked flagship_call flagship

  abbrev IsRun : LlmTaskRequest → TieredOutcome × (W × (ℕ × ℕ)) → Type 0
  IsRun request r = IsBounded validator request r.0 r.1.1.0 r.1.1.1

  escalate-IsBounded :
      (request : LlmTaskRequest) (attempts : List Attempt) (w : W) (d : ℕ)
      → d ≤ 2
      → 1 ≤ d
      → length attempts ≡ d
      → count is_flagship attempts ≡ 0
      → IsRun request
          (escalate counted_default counted_flagship validator request attempts (w, (d, 0)))
  unfolding escalate
  escalate-IsBounded request attempts w d few some_call h k =
      let (result, rejection, entry, w') =
        attempt_with counted_default counted_flagship validator counted_flagship
          ModelTier.flagship_escalation "flagship" request (w, (d, 0)) in
      let size = length-append attempts (entry ∷ []) in
      let flagships = count-append is_flagship attempts (entry ∷ []) in
      elim (Option-cases rejection) [
        | inl e ↦
            rw (escalate, e)
              (record {
                defaults = few;
                some_call = some_call;
                one_flagship = omega arith;
                logged_all = omega (arith, size, h);
                logged_flagship = omega (arith, flagships, k);
                failed = λ t. cc;
                judged_ok = λ _. e;
              })
        | inr (code, e) ↦
            rw (escalate, e)
              (record {
                defaults = few;
                some_call = some_call;
                one_flagship = omega arith;
                logged_all = omega (arith, size, h);
                logged_flagship = omega (arith, flagships, k);
                failed = λ _. ground arith;
                judged_ok = λ t. cc;
              })
      ]

  repair-IsBounded :
      (request : LlmTaskRequest) (entry : Attempt) (code : String) (w : W)
      → is_flagship entry ≡ false
      → IsRun request
          (repair counted_default counted_flagship validator request (entry ∷ []) code (w, (1, 0)))
  unfolding repair
  repair-IsBounded request first code w k =
      let (result, rejection, entry, w') =
        attempt_with counted_default counted_flagship validator counted_default
          ModelTier.default_hosted "repair" request (w, (1, 0)) in
      elim (Bool-cases (repairable code)) [
        | inl r ↦ elim (Option-cases rejection) [
          | inl e ↦
              rw (repair, r, e)
                (record {
                  defaults = omega arith;
                  some_call = omega arith;
                  one_flagship = omega arith;
                  logged_all = refl;
                  logged_flagship = rw k refl;
                  failed = λ t. cc;
                  judged_ok = λ _. e;
                })
          | inr (_, e) ↦
              rw (repair, r, e)
                (escalate-IsBounded request (first ∷ entry ∷ []) w'.0 2 (omega arith) (omega arith)
                  refl (rw k refl))
        ]
        | inr r ↦
            rw (repair, r)
              (escalate-IsBounded request (first ∷ []) w 1 (omega arith) (omega arith) refl
                (rw k refl))
      ]

  -- Whatever the executors and the validator answer, a request is answered with one or two calls of the
  -- default executor and one call of the flagship at most, and the log has one entry for each call, at
  -- its tier; an outcome without review is one that passed the checks at the tier that it names, and
  -- an outcome for review is no success.
  pub execute_tiered-IsBounded :
      (request : LlmTaskRequest) (w : W)
      → (let r = execute_tiered counted_default counted_flagship validator request (w, (0, 0)) in
          IsBounded validator request r.0 r.1.1.0 r.1.1.1)
  unfolding execute_tiered repair
  execute_tiered-IsBounded request w =
      let (result, rejection, entry, w') =
        attempt_with counted_default counted_flagship validator counted_default
          ModelTier.default_hosted "default" request (w, (0, 0)) in
      elim (Option-cases rejection) [
        | inl e ↦
            rw (execute_tiered, e)
              (record {
                defaults = omega arith;
                some_call = omega arith;
                one_flagship = omega arith;
                logged_all = refl;
                logged_flagship = refl;
                failed = λ t. cc;
                judged_ok = λ _. e;
              })
        | inr (code, e) ↦ rw (execute_tiered, e) (repair-IsBounded request entry code w'.0 refl)
      ]

-- ===== src/Context/Budget.antt =====
-- A package stays within the budget of its request.
use mathlib.Core.Path.{subst}
use agent_gear.Common.{
  ℕ, zero, suc, ◌+◌, ◌≤◌, ◌≡◌, refl, String, List, [], ◌∷◌, ◌++◌, ◌<◌, ltb, arith, Bool-cases, inl,
  inr,
}
use agent_gear.Context.{
  ContextRequest, default_package, approx_token_count, join, Found, entry, finished, failed,
  Collected, chunks, broken, is_empty_text, after_step, collect, package_of, Backend, missing,
  without_instance, without_search, searchable, request_context,
}

shift : (a b : ℕ) → suc a + b ≡ a + suc b
shift a b = omega arith

empty_fits : {n : ℕ} → approx_token_count (join []) ≤ n
unfolding approx_token_count join
empty_fits = omega arith

-- The chunks fit together, and no more entries were considered than the limit.
abbrev IsWithin : ℕ → ℕ → Collected → Type 0
IsWithin budget limit (broken name) = Unit
IsWithin budget limit (chunks taken considered) =
    (approx_token_count (join taken) ≤ budget) × (considered ≤ limit)

module _ (budget : ℕ) (results : ℕ → Found) where
  after_step-IsWithin :
      (found : Found) (taken : List String) (considered limit : ℕ) (rest : List String → Collected)
      → approx_token_count (join taken) ≤ budget
      → considered < limit
      → ((more : List String)
          → approx_token_count (join more) ≤ budget
          → IsWithin budget limit (rest more))
      → IsWithin budget limit (after_step budget results found taken considered rest)
  unfolding after_step
  after_step-IsWithin finished taken considered limit rest h below go_on = (h, omega arith)
  after_step-IsWithin (failed name) taken considered limit rest h below go_on = tt
  after_step-IsWithin (entry content) taken considered limit rest h below go_on =
      elim (Bool-cases (is_empty_text content)) [
        | inl e ↦ rw e (go_on taken h)
        | inr e ↦
            elim (Bool-cases (ltb budget (approx_token_count (join (taken ++ content ∷ []))))) [
              | inl over ↦ rw (e, over) (h, below)
              | inr fits ↦ rw (e, fits) (go_on (taken ++ content ∷ []) (ground arith))
            ]
      ]

  collect-IsWithin :
      (left considered : ℕ) (taken : List String)
      → approx_token_count (join taken) ≤ budget
      → IsWithin budget (considered + left) (collect budget results left considered taken)
  unfolding collect
  collect-IsWithin zero considered taken h = (h, omega arith)
  collect-IsWithin (suc left) considered taken h =
      after_step-IsWithin (results considered) taken considered (considered + suc left)
        (collect budget results left (suc considered)) h (omega arith)
        (λ more k.
          subst (λ n. IsWithin budget n (collect budget results left (suc considered) more))
            (shift considered left) (collect-IsWithin left (suc considered) more k))

package_of-fits :
    (request : ContextRequest) (limit : ℕ) (collected : Collected)
    → IsWithin request.budget_tokens limit collected
    → (package_of request collected).used_tokens ≤ request.budget_tokens
unfolding package_of default_package
package_of-fits request limit (broken name) h = omega arith
package_of-fits request limit (chunks taken considered) h = h.0

package_of-counted :
    (request : ContextRequest) (collected : Collected)
    → (package_of request collected).used_tokens
      ≡ approx_token_count (package_of request collected).content
unfolding package_of default_package approx_token_count
package_of-counted request (broken name) = refl
package_of-counted request (chunks taken considered) = refl

-- Whatever the backend is, and whatever its search gives, which may be without an end or raise at any
-- point, the package of a request stays within the request's budget: the tokens that it reports are
-- those of its very content, and are no more than the budget.
pub request_context-fits :
    (backend : Backend) (limit : ℕ) (request : ContextRequest)
    → ((request_context backend limit request).used_tokens ≤ request.budget_tokens)
      × ((request_context backend limit request).used_tokens
          ≡ approx_token_count (request_context backend limit request).content)
unfolding request_context default_package approx_token_count
request_context-fits missing limit request = (omega arith, refl)
request_context-fits without_instance limit request = (omega arith, refl)
request_context-fits without_search limit request = (omega arith, refl)
request_context-fits (searchable search) limit request =
    let collected = collect request.budget_tokens (search request.topic limit) limit 0 [] in
    (
      package_of-fits request (0 + limit) collected (
          collect-IsWithin request.budget_tokens (search request.topic limit) limit 0 []
            empty_fits),
      package_of-counted request collected,
    )

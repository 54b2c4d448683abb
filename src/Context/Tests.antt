-- ===== src/Context/Tests.antt =====
-- A search that gives two entries and then never ends.
use agent_gear.Common.{ℕ, zero, suc, ◌≤◌, ◌≡◌, refl, String, []}
use agent_gear.Context.{
  ContextRequest, Found, entry, searchable, request_context, approx_token_count, join, collect,
  after_step, package_of, fit_of,
}
use agent_gear.Context.Budget.{request_context-fits}

abbrev endless : String → ℕ → ℕ → Found
endless topic limit zero = entry "tokens are checked"
endless topic limit (suc zero) = entry ""
endless topic limit (suc (suc i)) = entry "the login form is in web/login"

abbrev login : ContextRequest
login = record { topic = "AUTH"; budget_tokens = 13; constraints = [] }

-- The second entry is empty, the third is the second chunk, and the fourth does not fit.
two_of_four : (request_context (searchable endless) 9 login).note ≡ fit_of 2 4
unfolding request_context package_of collect after_step approx_token_count join
two_of_four = refl

request_context-fits_example :
    ((request_context (searchable endless) 9 login).used_tokens ≤ 13)
    × ((request_context (searchable endless) 9 login).used_tokens
        ≡ approx_token_count (request_context (searchable endless) 9 login).content)
request_context-fits_example = request_context-fits (searchable endless) 9 login

-- ===== src/Context.antt =====
-- context_provider.py: the requests, the default provider, and the provider over a search. What the
-- search gives is a parameter: each step of its iteration is an entry, the end, or an exception, whose
-- class name is kept. The other notes are kept by what they say.
pub mod Budget
mod Tests
use Prim.Native.String.{◌++◌ as ◌<>◌}
use agent_gear.Common.{
  ℕ, zero, suc, ◌/◌, max, String, Bool, true, false, not, List, [], ◌∷◌, ◌++◌, ℤ, all, length, ltb,
  is_blank, if◌then◌else◌,
}
use agent_gear.Errors.{Result, ok, err, configuration}
use agent_gear.Errors.Checks.{◌>>=◌, ◌>>◌, raise_if}
use agent_gear.Floats.{require_positive_int}
use agent_gear.PathSecurity.{text_length}

pub record ContextRequest : Type 0 where
  pub topic : String
  pub budget_tokens : ℕ
  pub constraints : List String

unfoldable pub make_context_request : String → ℤ → List String → Result ContextRequest
unfolding require_positive_int
make_context_request topic budget constraints = do
  raise_if (is_blank topic) configuration
  tokens ← require_positive_int configuration budget
  raise_if (not (all (λ s. not (is_blank s)) constraints)) configuration
  ok (record { topic = topic; budget_tokens = tokens; constraints = constraints })

pub data Note : Type 0 where
  no_backend not_installed no_instance no_search : Note
  -- the class of the exception
  integration_failed : String → Note
  -- so many entries of so many fit
  fit_of : ℕ → ℕ → Note

pub record ContextPackage : Type 0 where
  pub topic : String
  pub content : String
  pub budget_tokens : ℕ
  pub used_tokens : ℕ
  pub source : String
  pub constraints_requested : List String
  pub constraints_applied : List String
  pub note : Note

-- The package of `DefaultContextProvider`, with a note.
unfoldable pub default_package : Note → ContextRequest → ContextPackage
default_package note request = record {
  topic = request.topic;
  content = "";
  budget_tokens = request.budget_tokens;
  used_tokens = 0;
  source = "default";
  constraints_requested = request.constraints;
  constraints_applied = [];
  note = note;
}

-- `_approx_token_count`
unfoldable pub approx_token_count : String → ℕ
unfolding text_length
approx_token_count String.[] = 0
approx_token_count (String.◌∷◌ c s) = max 1 (text_length (String.◌∷◌ c s) / 4)

-- `"\n\n".join(chunks)`
unfoldable pub join : List String → String
join [] = ""
join (s ∷ []) = s
join (s ∷ t ∷ rest) = s <> "\n\n" <> join (t ∷ rest)

-- One step of the iteration, with the text of an entry.
pub data Found : Type 0 where
  entry : String → Found
  finished : Found
  failed : String → Found

-- What the loop leaves: the chunks and how many entries it considered, or the class of an exception.
pub data Collected : Type 0 where
  chunks : List String → ℕ → Collected
  broken : String → Collected

abbrev pub is_empty_text : String → Bool
is_empty_text String.[] = true
is_empty_text (String.◌∷◌ c s) = false

module _ (budget : ℕ) (results : ℕ → Found) where
  -- One step of the loop, with what is done after it: an empty entry is skipped, one that does not fit
  -- ends the loop, and another is one more chunk.
  unfoldable pub after_step : Found → List String → ℕ → (List String → Collected) → Collected
  unfolding approx_token_count join
  after_step finished taken considered rest = chunks taken considered
  after_step (failed name) taken considered rest = broken name
  after_step (entry content) taken considered rest =
      if is_empty_text content
      then rest taken
      else if ltb budget (approx_token_count (join (taken ++ content ∷ [])))
      then chunks taken (suc considered)
      else rest (taken ++ content ∷ [])

  -- The loop, with so many entries left of the limit, after `considered` of them.
  unfoldable pub collect : ℕ → ℕ → List String → Collected
  unfolding after_step
  collect zero considered taken = chunks taken considered
  collect (suc left) considered taken =
      after_step (results considered) taken considered (collect left (suc considered))

-- The package of what was collected.
unfoldable pub package_of : ContextRequest → Collected → ContextPackage
unfolding approx_token_count join default_package
package_of request (broken name) = default_package (integration_failed name) request
package_of request (chunks taken considered) = record {
  topic = request.topic;
  content = join taken;
  budget_tokens = request.budget_tokens;
  used_tokens = approx_token_count (join taken);
  source = "promptgraph";
  constraints_requested = request.constraints;
  constraints_applied = [];
  note = fit_of (length taken) considered;
}

-- What the caller supplied, and whether it can be searched: by a topic, up to a limit.
pub data Backend : Type 0 where
  missing without_instance without_search : Backend
  searchable : (String → ℕ → ℕ → Found) → Backend

-- `PromptGraphContextProvider.request`
unfoldable pub request_context : Backend → ℕ → ContextRequest → ContextPackage
unfolding default_package package_of collect
request_context missing limit request = default_package not_installed request
request_context without_instance limit request = default_package no_instance request
request_context without_search limit request = default_package no_search request
request_context (searchable search) limit request =
    package_of request (collect request.budget_tokens (search request.topic limit) limit 0 [])

-- The check of `search_limit` in its constructor.
unfoldable pub make_search_limit : ℤ → Result ℕ
unfolding require_positive_int
make_search_limit limit = require_positive_int configuration limit

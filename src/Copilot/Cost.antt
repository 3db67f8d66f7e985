-- ===== src/Copilot/Cost.antt =====
-- packages/plugin-copilot/src/internal/cost.ts. Model ids are code points; the price table of the
-- SDK is the parameter `compute_cost`. Amounts are whole numbers of the least unit of money, so
-- every amount is finite.
pub mod Source
use theokit_plugins.Common.{
  ℕ, ◌+◌, String, Option, none, some, List, [], ◌∷◌, nat_beq, if◌then◌else◌,
}
use theokit_plugins.Common.Async.{Attempt, returned, threw}

-- `CopilotUsage`
pub record CopilotUsage : Type 0 where
  pub input_tokens : Option ℕ
  pub output_tokens : Option ℕ
  pub cost_usd : Option ℕ

-- `SettledCost`, and `CostBreakdownShape`, which has the same fields.
pub record SettledCost : Type 0 where
  pub amount_usd : Option ℕ
  pub status : String
  pub source : Option String
  pub pricing_version : Option String

pub record TokenUsage : Type 0 where
  pub input_tokens : ℕ
  pub output_tokens : ℕ
  pub total_tokens : ℕ

abbrev unpriced : String → SettledCost
unpriced status = record {
  amount_usd = none;
  status = status;
  source = none;
  pricing_version = none;
}

-- The text before the first slash and the text after it.
abbrev pub in_front : ℕ → Option (List ℕ × List ℕ) → Option (List ℕ × List ℕ)
in_front c none = none
in_front c (some (front, back)) = some (c ∷ front, back)

unfoldable pub split_at_slash : List ℕ → Option (List ℕ × List ℕ)
split_at_slash [] = none
split_at_slash (c ∷ cs) =
    let rest = in_front c (split_at_slash cs) in if nat_beq c b'/' then some ([], cs) else rest

abbrev pub provider_and_model : List ℕ → Option (List ℕ × List ℕ) → List ℕ × List ℕ
provider_and_model id none = ([], id)
provider_and_model id (some ([], back)) = ([], id)
provider_and_model id (some (c ∷ front, [])) = ([], id)
provider_and_model id (some (c ∷ front, d ∷ back)) = (c ∷ front, d ∷ back)

-- `splitModelId`: the provider and the model.
unfoldable pub split_model_id : List ℕ → List ℕ × List ℕ
unfolding split_at_slash
split_model_id id = provider_and_model id (split_at_slash id)

module _ {E : Type 0}
    (compute_cost : TokenUsage → (provider model : List ℕ) → Attempt E SettledCost) where
  abbrev pub of_breakdown : Attempt E SettledCost → SettledCost
  of_breakdown (returned b) = b
  of_breakdown (threw e) = unpriced "pricing_error"

  abbrev pub priced : List ℕ → ℕ → ℕ → SettledCost
  priced id i o =
      let (provider, model) = split_model_id id in
      of_breakdown (
        compute_cost (record { input_tokens = i; output_tokens = o; total_tokens = i + o }) provider
          model)

  abbrev pub from_tokens : List ℕ → Option ℕ → Option ℕ → SettledCost
  from_tokens id none o = unpriced "no_usage"
  from_tokens id (some i) none = unpriced "no_usage"
  from_tokens id (some i) (some o) = priced id i o

  abbrev pub from_usage : List ℕ → CopilotUsage → Option ℕ → SettledCost
  from_usage id u (some usd) = record {
    amount_usd = some usd;
    status = "reported";
    source = some "agent";
    pricing_version = none;
  }
  from_usage id u none = from_tokens id u.input_tokens u.output_tokens

  -- `settleCost`
  unfoldable pub settle_cost : Option CopilotUsage → List ℕ → SettledCost
  unfolding split_model_id
  settle_cost none id = unpriced "no_usage"
  settle_cost (some u) id = from_usage id u u.cost_usd

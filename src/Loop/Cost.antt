-- ===== src/Loop/Cost.antt =====
-- Pricing and cost accumulation of runtime/src/loop/run-loop.ts.
use dream_team.Prelude.{
  ℕ, ◌+◌, ◌*◌, ◌/◌, ◌%◌, String, none, some, List, [], ◌∷◌, concat, show, pad_zeros, or_else,
}
use dream_team.Gate.Objects.{lookup}
use dream_team.Effects.{M, throw, plain_error, pure, ◌>>=◌}
use dream_team.Loop.Types.{ModelUsage, RunCost}

abbrev pub model_id : String
model_id = "claude-opus-4-8"

-- Dollars per million tokens: millionths of a dollar per token.
pub record Pricing : Type 0 where
  pub in_per_m : ℕ
  pub out_per_m : ℕ

abbrev pub model_pricing : List (String × Pricing)
model_pricing = (model_id, record { in_per_m = 5; out_per_m = 25 }) ∷ []

-- Asked only for `model_id`, so an inherited property of the table is out of the question.
unfoldable pub price_usd : {W : Type 0} → String → M W Pricing
unfolding lookup
price_usd model = elim (lookup model_pricing model) [
  | some price ↦ pure price
  | none ↦ throw (
      plain_error (
        concat (
          "runLoop: no pricing for model '" ∷ model ∷ "' — refusing to price as $0 (ADR §4.7)"
          ∷ [])))
]

abbrev pub no_cost : RunCost
no_cost = record {
  input_tokens = 0;
  output_tokens = 0;
  cache_read_input_tokens = 0;
  cache_creation_input_tokens = 0;
  cost_usd = 0;
}

abbrev pub add_cost : RunCost → ModelUsage → Pricing → RunCost
add_cost cost usage price = record {
  input_tokens = cost.input_tokens + usage.input_tokens;
  output_tokens = cost.output_tokens + usage.output_tokens;
  cache_read_input_tokens = cost.cache_read_input_tokens + or_else usage.cache_read_input_tokens 0;
  cache_creation_input_tokens =
      cost.cache_creation_input_tokens + or_else usage.cache_creation_input_tokens 0;
  cost_usd =
      cost.cost_usd + (usage.input_tokens * price.in_per_m + usage.output_tokens * price.out_per_m);
}

-- `x.toFixed(4)` of an amount in millionths, rounded half up.
unfoldable pub to_fixed_4 : ℕ → String
to_fixed_4 x =
    let cents = (x + 50) / 100 in
    concat (show (cents / 10000) ∷ "." ∷ pad_zeros 4 (show (cents % 10000)) ∷ [])

unfoldable pub accumulate_cost : {W : Type 0} → RunCost → ModelUsage → String → M W RunCost
unfolding price_usd
accumulate_cost cost usage model = do price ← price_usd model; pure (add_cost cost usage price)

-- ===== src/Llm/Estimates/Tests.antt =====
-- The estimates at models of 60 and 100 tokens a second.
use holahost.Base.{ℕ, ◌≡◌, refl, true, false, some}
use holahost.Base.Int.{pos}
use holahost.Llm.Entities.{Model, Decimal}
use holahost.Llm.Estimates.{
  max_tokens_within, nearest_double, scale_up, scale_down, round_quotient, output_ceiling,
}

abbrev free : Decimal
free = record { coefficient = pos 0; exponent = pos 0 }

abbrev model : ℕ → Model
model speed = record {
  provider = record {
    name = record { value = "anthropic" };
    enabled = true;
    api_key_ref = some "k";
  };
  id = record { value = "sonnet" };
  max_context = 200_000;
  max_output = 8_000;
  price_in = free;
  price_out = free;
  tokens_per_second = speed;
  deprecated = false;
}

whole_seconds : max_tokens_within 15_000_000 (model 60) ≡ 900
unfolding max_tokens_within nearest_double scale_up scale_down round_quotient output_ceiling
whole_seconds = refl

-- `math.floor(2.05 * 60)`
rounded_below : max_tokens_within 2_050_000 (model 60) ≡ 122
unfolding max_tokens_within nearest_double scale_up scale_down round_quotient output_ceiling
rounded_below = refl

-- `math.floor(0.29 * 100)`
rounded_below_too : max_tokens_within 290_000 (model 100) ≡ 28
unfolding max_tokens_within nearest_double scale_up scale_down round_quotient output_ceiling
rounded_below_too = refl

no_time : max_tokens_within 0 (model 60) ≡ 0
unfolding max_tokens_within nearest_double scale_up scale_down round_quotient output_ceiling
no_time = refl

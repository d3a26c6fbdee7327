-- ===== src/Pricing/Tests.antt =====
-- The price of an urgent task in a busy zone.
use tasker_api.Prelude.{pos, ◌+ℤ◌, ◌-ℤ◌, ◌≤ℤ◌, ◌≤◌, ◌≡◌, refl, true, none, some, [], ◌∷◌, arith}
use tasker_api.Models.{Service, ServiceCategory, PricingRule, PricingRuleType}
use tasker_api.Table.{get, select_where}
use tasker_api.Db.{Db, empty_db}
use tasker_api.Pricing.{PricingCalculationRequest, calculate_price}
use tasker_api.Pricing.Bounds.{calculate_price_lem}

abbrev plumbing : Service
plumbing = record {
  category_id = some 3;
  base_price = some (pos 200000);
  default_duration_min = some (pos 90);
  per_km_rate = none;
  per_minute_rate = none;
  take_rate = some 1250;
}

abbrev home : ServiceCategory
home = record {
  default_base_price = some (pos 100000);
  default_duration_min = none;
  per_km_rate = some (pos 18000);
  per_minute_rate = none;
}

abbrev rule : PricingRule
rule = record {
  category_id = some 3;
  region_id = none;
  rule_type = PricingRuleType.urgency_fee;
  value = some (pos 75000);
  multiplier = none;
  is_active = true;
}

abbrev catalog : Db
catalog = record empty_db {
  services = (2, plumbing) ∷ [];
  categories = (3, home) ∷ [];
  pricing_rules = (1, rule) ∷ [];
}

-- 5.25 km, and 7 open tasks for 3 providers.
abbrev urgent : PricingCalculationRequest
urgent = record {
  category_id = none;
  service_id = some 2;
  region_id = none;
  distance_km = some (pos 525);
  estimated_duration_min = none;
  is_urgent = true;
  complexity_fee = none;
  open_tasks_in_zone = some 7;
  available_providers_in_zone = some 3;
  surge_multiplier_override = none;
}

urgent_total : (calculate_price urgent catalog).customer_total_price ≡ pos 686875
unfolding calculate_price get select_where ◌+ℤ◌ ◌-ℤ◌
urgent_total = refl

urgent_low : pos 0 ≤ℤ (calculate_price urgent catalog).subtotal
unfolding calculate_price get select_where ◌+ℤ◌ ◌-ℤ◌
urgent_low = omega arith

urgent_rate : (calculate_price urgent catalog).take_rate ≤ 10000
unfolding calculate_price get select_where
urgent_rate = omega arith

calculate_price_lem_example :
    let b = calculate_price urgent catalog in
    (b.subtotal ≡ b.base_price +ℤ b.distance_fee +ℤ b.time_fee +ℤ b.urgency_fee +ℤ b.complexity_fee)
    × (pos 100 ≤ℤ b.surge_multiplier)
    × (b.subtotal ≤ℤ b.customer_total_price)
    × (pos 0 ≤ℤ b.platform_fee)
    × (b.platform_fee ≤ℤ b.customer_total_price)
    × (b.platform_fee +ℤ b.provider_payout ≡ b.customer_total_price)
calculate_price_lem_example = calculate_price_lem urgent catalog refl urgent_low urgent_rate

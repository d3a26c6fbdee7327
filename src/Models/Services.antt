-- ===== src/Models/Services.antt =====
-- app/core/models/services.py, with the columns that the prices depend on. Prices are in kobo,
-- multipliers in hundredths.
use tasker_api.Prelude.{ℕ, ℤ, Bool, Option}

-- `PricingRuleType`
pub data PricingRuleType : Type 0 where
  base_rate per_km per_minute urgency_fee complexity_flat surge_multiplier : PricingRuleType

-- `ServiceCategory`
pub record ServiceCategory : Type 0 where
  pub default_base_price : Option ℤ
  pub default_duration_min : Option ℤ
  pub per_km_rate : Option ℤ
  pub per_minute_rate : Option ℤ

-- `Service`; the take rate is in parts of ten thousand.
pub record Service : Type 0 where
  pub category_id : Option ℕ
  pub base_price : Option ℤ
  pub default_duration_min : Option ℤ
  pub per_km_rate : Option ℤ
  pub per_minute_rate : Option ℤ
  pub take_rate : Option ℕ

-- `PricingRule`
pub record PricingRule : Type 0 where
  pub category_id : Option ℕ
  pub region_id : Option ℕ
  pub rule_type : PricingRuleType
  pub value : Option ℤ
  pub multiplier : Option ℤ
  pub is_active : Bool

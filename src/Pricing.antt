-- ===== src/Pricing.antt =====
-- The upfront price of a task: `PricingEngine` of app/features/services/pricing_engine.py. Prices are
-- whole kobo, distances, multipliers and rates per minute in hundredths of their unit where the
-- source has fractions, as exact numbers. On such numbers the rounding of the subtotal, the base price,
-- the fees for urgency and complexity and the surge to hundredths does nothing and is not written.
pub mod Bounds
mod Tests
use tasker_api.Prelude.{
  ℕ, zero, suc, ◌*◌, max, ℤ, pos, negsuc, ◌+ℤ◌, ◌-ℤ◌, max_ℤ, ltb_ℤ, leb_ℤ, is_zero, leb, round_ℤ,
  times, times_ℤ, Bool, true, false, ◌&&◌, ◌||◌, not, Option, none, some, List, [], ◌∷◌, ◌==◌,
  same_id, is_id, is_some, get_or, if◌then◌else◌,
}
use tasker_api.Models.{PricingRuleType, ServiceCategory, Service, PricingRule, Task}
use tasker_api.Table.{Table, get, select_where}
use tasker_api.Db.{Db}

-- `PricingCalculationRequest`
pub record PricingCalculationRequest : Type 0 where
  pub category_id : Option ℕ
  pub service_id : Option ℕ
  pub region_id : Option ℕ
  pub distance_km : Option ℤ
  pub estimated_duration_min : Option ℤ
  pub is_urgent : Bool
  pub complexity_fee : Option ℤ
  pub open_tasks_in_zone : Option ℕ
  pub available_providers_in_zone : Option ℕ
  pub surge_multiplier_override : Option ℤ

-- `PricingBreakdown`
pub record PricingBreakdown : Type 0 where
  pub base_price : ℤ
  pub distance_fee : ℤ
  pub time_fee : ℤ
  pub urgency_fee : ℤ
  pub complexity_fee : ℤ
  pub surge_multiplier : ℤ
  pub subtotal : ℤ
  pub customer_total_price : ℤ
  pub platform_fee : ℤ
  pub provider_payout : ℤ
  pub take_rate : ℕ

-- `value or default`, and `default` overridden by a value that is not zero.
abbrev pub or_number : Option ℤ → ℤ → ℤ
or_number none d = d
or_number (some n) d = if is_zero n then d else n

-- A value that is there and above zero.
abbrev pub positive : Option ℤ → Option ℤ
positive none = none
positive (some n) = if ltb_ℤ (pos 0) n then some n else none

-- The rates that a price is made of.
pub record Rates : Type 0 where
  pub base_price : ℤ
  pub duration_min : ℤ
  pub per_km : ℤ
  pub per_minute : ℤ
  pub take_rate : ℕ
  pub urgency_fee : ℤ
  pub complexity_fee : ℤ
  pub surge_multiplier : ℤ

abbrev row_of : {A : Type 0} → Option ℕ → Table A → Option (ℕ × A)
row_of none t = none
row_of (some id) t = elim (get id t) [ none ↦ none | some a ↦ some (id, a) ]

abbrev pub service_for : PricingCalculationRequest → Db → Option Service
service_for request db = elim request.service_id [ none ↦ none | some id ↦ get id db.services ]

abbrev category_of : Option Service → Option ℕ
category_of none = none
category_of (some s) = s.category_id

abbrev pub category_for : PricingCalculationRequest → Db → Option (ℕ × ServiceCategory)
category_for request db = elim (row_of (category_of (service_for request db)) db.categories) [
  | some row ↦ some row
  | none ↦ row_of request.category_id db.categories
]

abbrev pub fallback_rates : PricingCalculationRequest → Rates
fallback_rates request = record {
  base_price = pos 0;
  duration_min = pos 60;
  per_km = pos 15000;
  per_minute = pos 2000;
  take_rate = 1500;
  urgency_fee = pos 0;
  complexity_fee = get_or request.complexity_fee (pos 0);
  surge_multiplier = pos 100;
}

abbrev pub with_category : Option (ℕ × ServiceCategory) → Rates → Rates
with_category none rates = rates
with_category (some (_, c)) rates = record rates {
  base_price = get_or c.default_base_price (pos 0);
  duration_min = or_number c.default_duration_min (pos 60);
  per_km = or_number c.per_km_rate (pos 15000);
  per_minute = or_number c.per_minute_rate (pos 2000);
}

abbrev pub with_service : Option Service → Rates → Rates
with_service none rates = rates
with_service (some s) rates = record rates {
  base_price = get_or (positive s.base_price) rates.base_price;
  duration_min = or_number s.default_duration_min rates.duration_min;
  per_km = or_number s.per_km_rate rates.per_km;
  per_minute = or_number s.per_minute_rate rates.per_minute;
  take_rate = get_or s.take_rate rates.take_rate;
}

-- `(column == wanted) | (column == None)`, where something is wanted.
abbrev matches : Option ℕ → Option ℕ → Bool
matches none column = true
matches (some wanted) none = true
matches (some wanted) (some id) = id == wanted

abbrev pub rule_category : PricingCalculationRequest → Db → Option ℕ
rule_category request db = elim request.category_id [
  | some id ↦ some id
  | none ↦ elim (category_for request db) [ none ↦ none | some (id, _) ↦ some id ]
]

abbrev pub applies : PricingCalculationRequest → Db → ℕ → PricingRule → Bool
applies request db _ rule =
    rule.is_active
    && matches (rule_category request db) rule.category_id
    && matches request.region_id rule.region_id

-- One turn of the loop over the rules.
abbrev pub apply_rule : Bool → PricingRule → Rates → Rates
apply_rule is_urgent rule rates = elim rule.rule_type [
  | PricingRuleType.base_rate ↦ record rates {
    base_price = get_or (positive rule.value) rates.base_price;
  }
  | PricingRuleType.per_km ↦ record rates { per_km = get_or (positive rule.value) rates.per_km }
  | PricingRuleType.per_minute ↦ record rates {
    per_minute = get_or (positive rule.value) rates.per_minute;
  }
  | PricingRuleType.urgency_fee ↦ record rates {
    urgency_fee = if is_urgent then or_number rule.value rates.urgency_fee else rates.urgency_fee;
  }
  | PricingRuleType.complexity_flat ↦ record rates {
    complexity_fee = rates.complexity_fee +ℤ get_or rule.value (pos 0);
  }
  | PricingRuleType.surge_multiplier ↦ record rates {
    surge_multiplier =
        max_ℤ rates.surge_multiplier (or_number rule.multiplier rates.surge_multiplier);
  }
]

abbrev pub apply_rules : Bool → Table PricingRule → Rates → Rates
apply_rules is_urgent [] rates = rates
apply_rules is_urgent ((_, rule) ∷ rules) rates =
    apply_rules is_urgent rules (apply_rule is_urgent rule rates)

-- The fallback of the urgency fee.
abbrev pub with_urgency : Bool → Rates → Rates
with_urgency false rates = rates
with_urgency true rates = record rates {
  urgency_fee = if is_zero rates.urgency_fee then pos 100000 else rates.urgency_fee;
}

-- Steps 1 and 2 of `calculate_price`.
unfoldable pub rates_for : PricingCalculationRequest → Db → Rates
rates_for request db = with_urgency request.is_urgent (
    apply_rules request.is_urgent (select_where (applies request db) db.pricing_rules) (
      with_service (service_for request db)
        (with_category (category_for request db) (fallback_rates request))))

-- The surge that the demand in the zone gives: `open_tasks / max(1, providers)` against 3, 2 and 1.
abbrev pub demand_surge : ℕ → ℕ → ℤ → ℤ
demand_surge open_tasks providers surge =
    let avail = max 1 providers in
    if leb (3 * avail) open_tasks
    then max_ℤ surge (pos 150)
    else if leb (2 * avail) open_tasks
    then max_ℤ surge (pos 125)
    else if leb avail open_tasks
    then max_ℤ surge (pos 110)
    else surge

-- Step 4.
abbrev pub surge_for : PricingCalculationRequest → ℤ → ℤ
surge_for request surge = elim (positive request.surge_multiplier_override) [
  | some n ↦ n
  | none ↦ elim request.open_tasks_in_zone [
    | none ↦ surge
    | some open_tasks ↦ elim request.available_providers_in_zone [
      | none ↦ surge
      | some providers ↦ demand_surge open_tasks providers surge
    ]
  ]
]

-- `calculate_price`
unfoldable pub calculate_price : PricingCalculationRequest → Db → PricingBreakdown
unfolding rates_for
calculate_price request db =
    let rates = rates_for request db in
    let distance = max_ℤ (pos 0) (get_or request.distance_km (pos 0)) in
    let distance_fee = round_ℤ (times_ℤ distance rates.per_km) 100 in
    let time_fee =
      times_ℤ (or_number request.estimated_duration_min rates.duration_min) rates.per_minute in
    let surge = surge_for request rates.surge_multiplier in
    let subtotal =
      rates.base_price +ℤ distance_fee +ℤ time_fee +ℤ rates.urgency_fee +ℤ rates.complexity_fee in
    let total = round_ℤ (times_ℤ surge subtotal) 100 in
    let fee = round_ℤ (times rates.take_rate total) 10000 in
    record {
      base_price = rates.base_price;
      distance_fee = distance_fee;
      time_fee = time_fee;
      urgency_fee = rates.urgency_fee;
      complexity_fee = rates.complexity_fee;
      surge_multiplier = surge;
      subtotal = subtotal;
      customer_total_price = total;
      platform_fee = fee;
      provider_payout = total -ℤ fee;
      take_rate = rates.take_rate;
    }

-- `apply_pricing_to_task`, on the columns of `Task` that the model has.
abbrev pub apply_pricing_to_task : Task → PricingBreakdown → Task
apply_pricing_to_task t b = record t {
  customer_total_price = some b.customer_total_price;
  platform_fee = some b.platform_fee;
  provider_payout = some b.provider_payout;
}

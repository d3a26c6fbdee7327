-- ===== src/Pricing/Bounds.antt =====
-- How the parts of a price hang together.
use tasker_api.Prelude.{
  ℕ, ◌*◌, ◌≤◌, ℤ, pos, negsuc, ◌+ℤ◌, ◌-ℤ◌, ◌≤ℤ◌, max_ℤ, ltb_ℤ, int_laws, round_ℕ, round_ℤ, times,
  times_ℤ, ◌≡◌, refl, Bool, true, false, Option, none, some, [], ◌∷◌, arith, Bool-cases,
  Option-cases, inl, inr,
}
use tasker_api.Models.{PricingRule, Service, ServiceCategory}
use tasker_api.Table.{Table, select_where}
use tasker_api.Db.{Db}
use tasker_api.Pricing.{
  PricingCalculationRequest, Rates, apply_rule, apply_rules, with_service, with_category,
  with_urgency, fallback_rates, rates_for, positive, service_for, category_for, applies, or_number,
  demand_surge, surge_for, calculate_price,
}

-- A surge of at least one does not lower a rounded price, and a rate of at most one takes at most it all.
round_above : (m n : ℕ) → 100 * n ≤ m → n ≤ round_ℕ m 100
round_above m n h = ground arith

round_below : (m n : ℕ) → m ≤ 10000 * n → round_ℕ m 10000 ≤ n
round_below m n h = ground arith

surge_raises : (surge n : ℕ) → 100 ≤ surge → n ≤ round_ℕ (surge * n) 100
surge_raises surge n h =
    let more : 100 * n ≤ surge * n = grind arith in round_above (surge * n) n more

rate_takes : (rate n : ℕ) → rate ≤ 10000 → round_ℕ (rate * n) 10000 ≤ n
rate_takes rate n h = let part : rate * n ≤ 10000 * n = grind arith in round_below (rate * n) n part

max_above : (low a b : ℤ) → low ≤ℤ a → low ≤ℤ max_ℤ a b
max_above low a b h = elim (Bool-cases (ltb_ℤ a b)) [
  | inl above ↦ grind arith
  | inr below ↦ grind arith
]

-- The surge is at least one throughout.
apply_rule-surge :
    (is_urgent : Bool) (rule : PricingRule) (rates : Rates)
    → pos 100 ≤ℤ rates.surge_multiplier
    → pos 100 ≤ℤ (apply_rule is_urgent rule rates).surge_multiplier
apply_rule-surge is_urgent rule rates h =
    let raised =
      max_above (pos 100) rates.surge_multiplier (or_number rule.multiplier rates.surge_multiplier)
        h in
    ground arith

apply_rules-surge :
    (is_urgent : Bool) (rules : Table PricingRule) (rates : Rates)
    → pos 100 ≤ℤ rates.surge_multiplier
    → pos 100 ≤ℤ (apply_rules is_urgent rules rates).surge_multiplier
apply_rules-surge is_urgent [] rates h = h
apply_rules-surge is_urgent ((_, rule) ∷ rules) rates h =
    apply_rules-surge is_urgent rules (apply_rule is_urgent rule rates)
      (apply_rule-surge is_urgent rule rates h)

with_category-surge :
    (c : Option (ℕ × ServiceCategory)) (rates : Rates)
    → (with_category c rates).surge_multiplier ≡ rates.surge_multiplier
with_category-surge none rates = refl
with_category-surge (some (_, c)) rates = refl

with_service-surge :
    (s : Option Service) (rates : Rates)
    → (with_service s rates).surge_multiplier ≡ rates.surge_multiplier
with_service-surge none rates = refl
with_service-surge (some s) rates = refl

with_urgency-surge :
    (is_urgent : Bool) (rates : Rates)
    → (with_urgency is_urgent rates).surge_multiplier ≡ rates.surge_multiplier
with_urgency-surge true rates = refl
with_urgency-surge false rates = refl

rates_for-surge :
    (request : PricingCalculationRequest) (db : Db)
    → pos 100 ≤ℤ (rates_for request db).surge_multiplier
unfolding rates_for
rates_for-surge request db =
    let base = fallback_rates request in
    let of_category = with_category (category_for request db) base in
    let of_service = with_service (service_for request db) of_category in
    let rules = select_where (applies request db) db.pricing_rules in
    rw (with_urgency-surge request.is_urgent (apply_rules request.is_urgent rules of_service)) (
      apply_rules-surge request.is_urgent rules of_service (
        rw
          (
            with_service-surge (service_for request db) of_category,
            with_category-surge (category_for request db) base,
          )
          (omega arith)))

demand_surge-surge :
    (open_tasks providers : ℕ) (surge : ℤ)
    → pos 100 ≤ℤ surge
    → pos 100 ≤ℤ demand_surge open_tasks providers surge
demand_surge-surge open_tasks providers surge h =
    let high = max_above (pos 100) surge (pos 150) h in
    let middle = max_above (pos 100) surge (pos 125) h in
    let low = max_above (pos 100) surge (pos 110) h in ground arith

surge_for-surge :
    (request : PricingCalculationRequest) (surge : ℤ)
    → positive request.surge_multiplier_override ≡ none
    → pos 100 ≤ℤ surge
    → pos 100 ≤ℤ surge_for request surge
surge_for-surge request surge free h = elim (Option-cases request.open_tasks_in_zone) [
  | inl e ↦ ground arith
  | inr (open_tasks, e) ↦ elim (Option-cases request.available_providers_in_zone) [
    | inl e' ↦ ground arith
    | inr (providers, e') ↦ ground (arith, demand_surge-surge open_tasks providers surge h)
  ]
]

split : (total fee : ℤ) → fee +ℤ (total -ℤ fee) ≡ total
split total fee = grind int_laws

-- The parts of a price, where the surge is not overridden by hand.
price_parts :
    (surge subtotal : ℤ) (rate : ℕ)
    → pos 100 ≤ℤ surge
    → pos 0 ≤ℤ subtotal
    → rate ≤ 10000
    → let total = round_ℤ (times_ℤ surge subtotal) 100 in
      let fee = round_ℤ (times rate total) 10000 in
      (subtotal ≤ℤ total) × (pos 0 ≤ℤ fee) × (fee ≤ℤ total) × (fee +ℤ (total -ℤ fee) ≡ total)
price_parts (pos surge) (pos n) rate h h' whole =
    let raised = surge_raises surge n (omega (arith, h)) in
    let total = round_ℕ (surge * n) 100 in
    let taken = rate_takes rate total whole in
    (
      omega (arith, raised),
      omega arith,
      omega (arith, taken),
      split (pos total) (pos (round_ℕ (rate * total) 10000)),
    )
price_parts (pos surge) (negsuc n) rate h h' whole = ground arith
price_parts (negsuc surge) subtotal rate h h' whole = ground arith

-- The price of a request without a manual surge, where the take rate is at most the whole and the
-- parts do not add up to less than nothing: the subtotal is the sum of its five parts, the surge is
-- at least one, so that the total is at least the subtotal, and the platform's fee and the
-- provider's payout are shares of the total that add up to it.
pub calculate_price_lem :
    (request : PricingCalculationRequest) (db : Db)
    → positive request.surge_multiplier_override ≡ none
    → pos 0 ≤ℤ (calculate_price request db).subtotal
    → (calculate_price request db).take_rate ≤ 10000
    → let b = calculate_price request db in
      (b.subtotal
        ≡ b.base_price +ℤ b.distance_fee +ℤ b.time_fee +ℤ b.urgency_fee +ℤ b.complexity_fee)
      × (pos 100 ≤ℤ b.surge_multiplier)
      × (b.subtotal ≤ℤ b.customer_total_price)
      × (pos 0 ≤ℤ b.platform_fee)
      × (b.platform_fee ≤ℤ b.customer_total_price)
      × (b.platform_fee +ℤ b.provider_payout ≡ b.customer_total_price)
unfolding calculate_price
calculate_price_lem request db free low whole =
    let rates = rates_for request db in
    let surge = surge_for-surge request rates.surge_multiplier free (rates_for-surge request db) in
    let b = calculate_price request db in
    let (raised, fee_low, fee_high, adds_up) =
      price_parts b.surge_multiplier b.subtotal b.take_rate surge low whole in
    (refl, surge, raised, fee_low, fee_high, adds_up)

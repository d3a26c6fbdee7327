-- ===== src/Tasks/Adjustments/Prices.antt =====
-- The prices after a customer's answer, and the answers that are refused.
use tasker_api.Prelude.{
  ℕ, ℤ, pos, none, negsuc, ◌⊎◌, ◌*◌, ◌≤◌, ◌+ℤ◌, ◌-ℤ◌, ◌≤ℤ◌, ltb_ℤ, max_ℤ, int_laws, round_ℕ,
  round_ℤ, times, ◌≡◌, refl, Bool, true, false, some, arith, is_id, get_or, if◌then◌else◌,
  Bool-cases, inl, inr, ==_refl,
}
use tasker_api.Models.{Task, TaskPriceAdjustment, PriceAdjustmentStatus}
use tasker_api.Table.{get}
use tasker_api.Table.Laws.{get-put_self, get-update_self}
use tasker_api.Db.{Db}
use tasker_api.Db.Exec.{ok}
use tasker_api.Dispatch.Redispatch.{is_err}
use tasker_api.Tasks.Adjustments.{
  respond_to_price_adjustment, is_pending_adjustment, new_price, take_rate_of, fee_at, repriced,
  answer,
}

-- A rate of at most the whole takes at most the whole.
round_bound : (m n : ℕ) → m ≤ 10000 * n → round_ℕ m 10000 ≤ n
round_bound m n h = ground arith

fee_bounds :
    (rate n : ℕ) → rate ≤ 10000 → (pos 0 ≤ℤ fee_at rate (pos n)) × (fee_at rate (pos n) ≤ℤ pos n)
fee_bounds rate n h =
    let part : rate * n ≤ 10000 * n = grind arith in
    let share = round_bound (rate * n) n part in (omega arith, omega (arith, share))

positive_or_zero : (p : ℤ) → ((n : ℕ) × (max_ℤ (pos 0) p ≡ pos n)) ⊎ (max_ℤ (pos 0) p ≡ pos 0)
positive_or_zero (pos n) = elim (Bool-cases (ltb_ℤ (pos 0) (pos n))) [
  | inl above ↦ inl (n, rw above refl)
  | inr zero ↦ inr (rw zero refl)
]
positive_or_zero (negsuc n) = inr (ground arith)

-- The fee of an amount that is not negative, by the amount asked for.
asked_bounds :
    (rate : ℕ) (p : ℤ)
    → rate ≤ 10000
    → (pos 0 ≤ℤ fee_at rate (max_ℤ (pos 0) p)) × (fee_at rate (max_ℤ (pos 0) p) ≤ℤ max_ℤ (pos 0) p)
asked_bounds rate p h = elim (positive_or_zero p) [
  | inl (n, e) ↦ rw e (fee_bounds rate n h)
  | inr e ↦ rw e (fee_bounds rate 0 h)
]

split_price : (price fee : ℤ) → fee +ℤ (price -ℤ fee) ≡ price
split_price price fee = grind int_laws

payout_low : (price fee : ℤ) → fee ≤ℤ price → pos 0 ≤ℤ price -ℤ fee
payout_low price fee h = grind int_laws

-- The price that was asked for.
abbrev pub price_asked : TaskPriceAdjustment → ℤ
price_asked a = max_ℤ (pos 0) (get_or a.amount (pos 0))

-- The rate of the task's service, 15 % without one.
abbrev pub rate_in_force : Task → Db → ℕ
rate_in_force t db = elim t.service_id [
  | none ↦ 1500
  | some id ↦ elim (get id db.services) [ none ↦ 1500 | some s ↦ get_or s.take_rate 1500 ]
]

-- The part of a price that a rate in parts of ten thousand takes, rounded to the nearest kobo.
abbrev pub fee_part : ℕ → ℤ → ℤ
fee_part rate price = round_ℤ (times rate price) 10000

module _ (task_id adjustment_id customer_id : ℕ) (t : Task) (a : TaskPriceAdjustment) (db : Db)
    (there : get task_id db.tasks ≡ some t) (mine : is_id t.customer_id customer_id ≡ true)
    (asked : get adjustment_id db.adjustments ≡ some a) (of_task : a.task_id ≡ task_id)
    (waits : is_pending_adjustment a.status ≡ true) where
  abbrev answered : Bool → TaskPriceAdjustment
  answered approved = record a { status = some (answer approved) }

  answered_refuses :
      (approved : Bool) (db' : Db)
      → get adjustment_id db'.adjustments ≡ some (answered approved)
      → (t' : Task) → get task_id db'.tasks ≡ some t'
      → (approved' : Bool) (customer_id' : ℕ)
      → let (r', again) =
          respond_to_price_adjustment task_id adjustment_id customer_id' approved' db' in
        (is_err r' ≡ true) × (again ≡ db')
  unfolding respond_to_price_adjustment
  answered_refuses true db' row t' task approved' customer_id' = ground (arith, ==_refl task_id)
  answered_refuses false db' row t' task approved' customer_id' = ground (arith, ==_refl task_id)

  pub respond_writes :
      (approved : Bool)
      → let (r, db') = respond_to_price_adjustment task_id adjustment_id customer_id approved db in
        (r ≡ ok (answered approved))
        × (get adjustment_id db'.adjustments ≡ some (answered approved))
        × (get task_id db'.tasks
            ≡ some (if approved then repriced (take_rate_of t db) (new_price a) t else t))
  unfolding respond_to_price_adjustment
  respond_writes approved =
      let same_task = ==_refl task_id in
      let row = get-put_self adjustment_id (answered approved) db.adjustments in
      let priced =
        get-update_self task_id (repriced (take_rate_of t db) (new_price a)) t db.tasks there in
      elim (Bool-cases approved) [ inl agreed ↦ grind arith | inr declined ↦ grind arith ]

  -- A second answer, by anyone, to an adjustment that has been answered.
  second_refused :
      (approved approved' : Bool) (customer_id' : ℕ)
      → let (r, db') = respond_to_price_adjustment task_id adjustment_id customer_id approved db in
        let (r', again) =
          respond_to_price_adjustment task_id adjustment_id customer_id' approved' db' in
        (is_err r' ≡ true) × (again ≡ db')
  second_refused approved approved' customer_id' =
      let (returned, row, task) = respond_writes approved in
      let db' = (respond_to_price_adjustment task_id adjustment_id customer_id approved db).1 in
      answered_refuses approved db' row
        (if approved then repriced (take_rate_of t db) (new_price a) t else t) task approved'
        customer_id'

  -- The customer's approval of a pending adjustment of the task, of whole kobo, where the take rate of
  -- the service is at most the whole: the task costs the amount that was asked for, and not the old price and
  -- the amount; the fee is the take rate's part of it, rounded to the nearest kobo, the fee and the
  -- provider's payout are not negative and add up to the new price; the
  -- adjustment is APPROVED; and a second answer, by anyone and of either kind, raises and writes
  -- nothing.
  pub approval-reprices :
      rate_in_force t db ≤ 10000
      → let (r, db') = respond_to_price_adjustment task_id adjustment_id customer_id true db in
        let price = price_asked a in
        let fee = fee_part (rate_in_force t db) price in
        (r ≡ ok (record a { status = some PriceAdjustmentStatus.approved }))
        × (get adjustment_id db'.adjustments
            ≡ some (record a { status = some PriceAdjustmentStatus.approved }))
        × (get task_id db'.tasks
            ≡ some (record t {
              customer_total_price = some price;
              platform_fee = some fee;
              provider_payout = some (price -ℤ fee);
            }))
        × (fee +ℤ (price -ℤ fee) ≡ price)
        × (pos 0 ≤ℤ fee)
        × (pos 0 ≤ℤ price -ℤ fee)
        × ((approved : Bool) (customer_id' : ℕ)
            → let (r', again) =
                respond_to_price_adjustment task_id adjustment_id customer_id' approved db' in
              (is_err r' ≡ true) × (again ≡ db'))
  approval-reprices whole =
      let (returned, row, task) = respond_writes true in
      let price = new_price a in
      let fee = fee_at (take_rate_of t db) price in
      let (fee_low, fee_high) = asked_bounds (take_rate_of t db) (get_or a.amount (pos 0)) whole in
      (
        returned,
        row,
        task,
        split_price price fee,
        fee_low,
        payout_low price fee fee_high,
        λ approved customer_id'. second_refused true approved customer_id',
      )

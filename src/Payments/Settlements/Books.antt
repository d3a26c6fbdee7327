-- ===== src/Payments/Settlements/Books.antt =====
-- What a checkout that settles a debt asks for, and what the charge that pays it does to the debt.
use tasker_api.Prelude.{
  ℕ, ℤ, pos, ◌-ℤ◌, ◌+ℤ◌, ◌≢◌, leb_ℤ, ltb_ℤ, int_laws, ◌≡◌, refl, true, false, Bool, Option, some,
  arith, Option-cases, inl, inr, get_or,
}
use tasker_api.Models.{Text, User}
use tasker_api.Table.{get}
use tasker_api.Db.{Db, Env}
use tasker_api.Db.Exec.{ok}
use tasker_api.Payments.{ChargeRequest, Checkout, total_debt}
use tasker_api.Payments.Charges.{Charge, ChargeKind, debtor, handle_charge_success}
use tasker_api.Payments.Charges.Repeats.{is_refused}
use tasker_api.Payments.Charges.Settling.{debt_settled}
use tasker_api.Payments.Settlements.{
  SettleDebtResponse, initialize_debt_settlement, get_provider_debt_summary,
}

left_over : (part whole : ℤ) → leb_ℤ part whole ≡ true → leb_ℤ (pos 0) (whole -ℤ part) ≡ true
unfolding ◌-ℤ◌
left_over part whole within = ground arith

module _ (gateway : ChargeRequest → Checkout) (provider_id : ℕ) (asked : Option ℤ) (u : User)
    (db : Db) where
  abbrev owed : ℤ
  owed = total_debt provider_id db.debts

  abbrev pub amount_asked : ℤ
  amount_asked = get_or asked owed

  abbrev pub checkout_of : Checkout
  checkout_of =
      gateway (record { email = u.email; amount = amount_asked; user_id = some provider_id })

  abbrev pub settle_response : SettleDebtResponse
  settle_response = record {
    payment_url = checkout_of.checkout_url;
    reference = checkout_of.reference;
    total_debt_owed = owed;
    amount_to_pay = amount_asked;
  }

  owed_positive :
      ltb_ℤ (pos 0) amount_asked ≡ true → leb_ℤ amount_asked owed ≡ true → ltb_ℤ (pos 0) owed ≡ true
  owed_positive positive within = grind arith

  summary_owed :
      ltb_ℤ (pos 0) owed ≡ true → (get_provider_debt_summary provider_id db).total_debt_owed ≡ owed
  unfolding get_provider_debt_summary
  summary_owed h = rw h refl

  asks_for_debt :
      get provider_id db.users ≡ some u
      → ltb_ℤ (pos 0) amount_asked ≡ true
      → leb_ℤ amount_asked owed ≡ true
      → initialize_debt_settlement gateway provider_id asked db ≡ (ok settle_response, db)
  unfolding initialize_debt_settlement
  asks_for_debt there positive within =
      let some_debt = owed_positive positive within in
      let whole = summary_owed some_debt in
      elim (Option-cases asked) [ inl e ↦ ground arith | inr (amount, e) ↦ ground arith ]

  -- A provider with an account asks to settle a debt, the whole or a positive part of at most the
  -- whole, all in whole kobo: a checkout of that amount is returned, with the whole debt, and no row is
  -- written. If a charge of that amount for the settlement of that provider's debt comes later, at
  -- which time the debt may have changed but is still at least the amount, and it is not refused: the
  -- debt then falls by that amount, and it is not below 0; those of all others are the same.
  pub settlement_books :
      (env : Env)
      → (same : Text → Text → Bool) → (c : Charge) (later : Db) → get provider_id db.users ≡ some u
      → ltb_ℤ (pos 0) amount_asked ≡ true
      → leb_ℤ amount_asked owed ≡ true
      → c.kind ≡ ChargeKind.debt_settlement
      → debtor c ≡ some provider_id
      → c.amount ≡ amount_asked
      → leb_ℤ amount_asked (total_debt provider_id later.debts) ≡ true
      → is_refused env same c later ≡ false
      → let (r, db') = handle_charge_success env same c later in
        (initialize_debt_settlement gateway provider_id asked db ≡ (ok settle_response, db))
        × (r ≡ ok tt)
        × (total_debt provider_id db'.debts +ℤ amount_asked ≡ total_debt provider_id later.debts)
        × (leb_ℤ (pos 0) (total_debt provider_id db'.debts) ≡ true)
        × ((other : ℕ)
            → other ≢ provider_id
            → total_debt other db'.debts ≡ total_debt other later.debts)
  settlement_books env same c later there positive within kind owes exact still accepted =
      let (returned, falls, others, booked, payouts, tasks, transfers) =
        debt_settled env same c provider_id later kind owes accepted in
      (
        asks_for_debt there positive within,
        returned,
        grind (int_laws),
        rw (falls, exact) (left_over amount_asked (total_debt provider_id later.debts) still),
        others,
      )

-- ===== src/Payments/Ledger.antt =====
-- The debt of a provider as the sum of an append-only ledger.
use tasker_api.Prelude.{
  ℕ, ℤ, pos, ◌+ℤ◌, ◌-ℤ◌, ltb_ℤ, ◌≤ℤ◌, int_laws, ◌≡◌, List, [], ◌∷◌, ◌++◌, ◌==◌, if◌then◌else◌,
  Bool-cases, inl, inr,
}
use tasker_api.Models.{ProviderDebt}
use tasker_api.Payments.{total_debt, debt_offset, neg}

-- The share of one entry in the debt of a provider.
abbrev pub debt_share : ℕ → ProviderDebt → ℤ
debt_share provider_id d = if d.provider_id == provider_id then d.amount else pos 0

pub total_debt-append :
    (provider_id : ℕ) (d : ProviderDebt) (debts : List ProviderDebt)
    → total_debt provider_id (debts ++ d ∷ [])
      ≡ total_debt provider_id debts +ℤ debt_share provider_id d
unfolding total_debt
total_debt-append provider_id d [] = grind int_laws
total_debt-append provider_id d (e ∷ debts) =
    let rest = total_debt-append provider_id d debts in grind int_laws

-- An offset of a gross amount that is not negative is not negative itself and not above that amount.
pub debt_offset_bounds :
    (gross debt : ℤ)
    → pos 0 ≤ℤ gross
    → (pos 0 ≤ℤ debt_offset gross debt)
      × (debt_offset gross debt ≤ℤ gross)
      × (pos 0 ≤ℤ gross -ℤ debt_offset gross debt)
debt_offset_bounds gross debt h = elim (Bool-cases (ltb_ℤ (pos 0) debt)) [
  | inl owes ↦ elim (Bool-cases (ltb_ℤ debt gross)) [
    | inl covers ↦ grind int_laws
    | inr short ↦ grind int_laws
  ]
  | inr free ↦ grind int_laws
]

pub offset_entry : (debt offset : ℤ) → debt +ℤ neg offset ≡ debt -ℤ offset
offset_entry debt offset = grind int_laws

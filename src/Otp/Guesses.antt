-- ===== src/Otp/Guesses.antt =====
-- How many guesses at a one-time password there are.
use package.text.Mathlib.Text.{◌==◌ as ◌=text◌}
use tasker_api.Prelude.{
  ℕ, suc, ◌+◌, ◌≤◌, ◌<◌, ◌≡◌, ◌⊎◌, sym, ap, ◌∙◌, subst, true, false, none, some, String, List, [],
  ◌∷◌, arith, All, length, is_some, Bool-cases, inl, inr, leb,
}
use tasker_api.Models.{is_empty, is_ascii}
use tasker_api.Otp.{
  OtpConfig, Slot, cached, Generated, code_sent, is_channel, generate_otp, expired, verify_otp,
  verify_all,
}

no_code :
    (cfg : OtpConfig) (now : ℕ) (code : String) (slot : Slot)
    → slot.code ≡ none
    → verify_otp cfg now code slot ≡ (expired, slot)
unfolding verify_otp
no_code cfg now code slot gone = ground arith

stays_gone :
    (cfg : OtpConfig) (guesses : List (ℕ × String)) (slot : Slot)
    → slot.code ≡ none
    → (verify_all cfg guesses slot).code ≡ none
stays_gone cfg [] slot gone = gone
stays_gone cfg ((now, code) ∷ guesses) slot gone =
    subst (λ r. (verify_all cfg guesses r.1).code ≡ none) (sym (no_code cfg now code slot gone))
      (stays_gone cfg guesses slot gone)

-- A slot in which a code waits, after `a` wrong guesses; both of its entries outlive `until`.
abbrev pub Waiting : String → ℕ → ℕ → ℕ → Slot → Type 0
Waiting stored until later a slot =
    (slot.code ≡ some (record { value = stored; expires = until }))
    × (slot.attempts ≡ some (record { value = a; expires = later }))
    × (until ≤ later)

-- A wrong guess in the code's life: it is counted, or it is the last.
wrong_guess :
    (cfg : OtpConfig) (stored : String) (until later a now : ℕ) (code : String) (slot : Slot)
    → Waiting stored until later a slot
    → is_empty stored ≡ false
    → now < until
    → until ≤ now + cfg.otp_expiry
    → suc a ≤ cfg.max_attempts
    → (stored =text code) ≡ false
    → is_ascii stored ≡ true
    → is_ascii code ≡ true
    → let slot' = (verify_otp cfg now code slot).1 in
      (slot'.code ≡ none)
      ⊎ (Waiting stored until (now + cfg.otp_expiry) (a + 1) slot'
          × (suc (a + 1) ≤ cfg.max_attempts))
unfolding verify_otp
wrong_guess cfg stored until later a now code slot (waits, counted, longer) written alive lasts left
      differs ascii ascii' =
    elim (Bool-cases (leb cfg.max_attempts (a + 1))) [
      | inl last ↦ inl (ground arith)
      | inr more ↦ inr ((ground arith, ground arith, lasts), ground arith)
    ]

-- A wrong guess of ASCII characters at `stored` in the life of the code, which began at `start`.
abbrev pub IsWrong : OtpConfig → ℕ → String → ℕ × String → Type 0
IsWrong cfg start stored (now, code) =
    (start ≤ now)
    × (now < start + cfg.otp_expiry)
    × ((stored =text code) ≡ false)
    × (is_ascii code ≡ true)

exhausts :
    (cfg : OtpConfig) (start : ℕ) (stored : String) (later a : ℕ) (guesses : List (ℕ × String))
    (slot : Slot)
    → Waiting stored (start + cfg.otp_expiry) later a slot
    → is_empty stored ≡ false
    → is_ascii stored ≡ true
    → suc a ≤ cfg.max_attempts
    → cfg.max_attempts ≤ a + length guesses
    → All (IsWrong cfg start stored) guesses
    → (verify_all cfg guesses slot).code ≡ none
exhausts cfg start stored later a [] slot waits written ascii left enough all = ground arith
exhausts cfg start stored later a ((now, code) ∷ guesses) slot waits written ascii left enough
      (first, rest) =
    elim (wrong_guess cfg stored (start + cfg.otp_expiry) later a now code slot waits written
      first.1 (omega (arith, first.0)) left first.2 ascii first.3) [
        | inl gone ↦ stays_gone cfg guesses (verify_otp cfg now code slot).1 gone
        | inr (waits', left') ↦
            exhausts cfg start stored (now + cfg.otp_expiry) (a + 1) guesses
              (verify_otp cfg now code slot).1 waits' written ascii left' (omega (arith, enough))
              rest
      ]

abbrev code_of : Generated → String
code_of (code_sent code) = code
code_of _ = ""

module _ (cfg : OtpConfig) (start : ℕ) (channel code : String) (slot : Slot)
    (sent : (generate_otp cfg start channel slot).0 ≡ code_sent code) where
  abbrev fresh_slot : Slot
  fresh_slot = (generate_otp cfg start channel slot).1

  begins :
      Waiting code (start + cfg.otp_expiry) (start + cfg.otp_expiry) 0 fresh_slot
      × (is_empty code ≡ false)
      × (is_ascii code ≡ true)
  unfolding generate_otp
  begins = elim (Bool-cases (is_channel channel)) [
    | inr other ↦ grind arith
    | inl known ↦ elim (Bool-cases (is_some (cached start slot.cooldown))) [
      | inl limited ↦ grind arith
      | inr free ↦
          let made : code_of (generate_otp cfg start channel slot).0 ≡ "123456" = ground arith in
          let same = ap code_of (sym sent) ∙ made in
          (grind arith, ap is_empty same, ap is_ascii same)
    ]
  ]

  -- After a code was generated, once as many wrong guesses of ASCII characters as the limit allows were made in
  -- its life,
  -- the code is gone: every later guess, the right one too and at any time, is told that the code has
  -- expired, and changes nothing.
  pub guesses-expired :
      (guesses : List (ℕ × String))
      → All (IsWrong cfg start code) guesses
      → 1 ≤ cfg.max_attempts
      → cfg.max_attempts ≤ length guesses
      → (now : ℕ) (guess : String)
      → let after = verify_all cfg guesses fresh_slot in
        verify_otp cfg now guess after ≡ (expired, after)
  guesses-expired guesses all some_left enough now guess =
      let (waits, written, ascii) = begins in
      no_code cfg now guess (verify_all cfg guesses fresh_slot) (
        exhausts cfg start code (start + cfg.otp_expiry) 0 guesses fresh_slot waits written ascii
          some_left (omega (arith, enough)) all)

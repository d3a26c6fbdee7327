-- ===== src/Otp.antt =====
-- One-time passwords: `OTPService` of app/core/services/otp.py. The three cache keys of a channel and
-- a target belong to these alone, so that the state is one slot of the cache; an entry is gone when
-- its time is over. Every cache call succeeds; the delivery of a code is a parameter.
pub mod Guesses
mod Tests
use package.text.Mathlib.Text.{◌==◌ as ◌=text◌}
use tasker_api.Prelude.{
  ℕ, ◌+◌, ⊤, Bool, true, false, ◌&&◌, not, Option, none, some, String, List, [], ◌∷◌, leb, ltb,
  is_some, get_or, if◌then◌else◌,
}
use tasker_api.Models.{is_empty, is_ascii}

-- The service's limits; a duration is in seconds.
pub record OtpConfig : Type 0 where
  pub otp_expiry : ℕ
  pub cooldown : ℕ
  pub max_attempts : ℕ

-- A cached value and the time at which it expires.
pub record Entry (A : Type 0) : Type 0 where
  pub value : A
  pub expires : ℕ

pub record Slot : Type 0 where
  pub code : Option (Entry String)
  pub attempts : Option (Entry ℕ)
  pub cooldown : Option (Entry ⊤)

abbrev pub empty_slot : Slot
empty_slot = record { code = none; attempts = none; cooldown = none }

-- `cache.get`
abbrev pub cached : {A : Type 0} → ℕ → Option (Entry A) → Option A
cached now none = none
cached now (some e) = if ltb now e.expires then some e.value else none

-- `cache.set`
abbrev pub entry : {A : Type 0} → ℕ → ℕ → A → Option (Entry A)
entry now expire a = some (record { value = a; expires = now + expire })

pub data Generated : Type 0 where
  invalid_channel rate_limited undelivered : Generated
  code_sent : String → Generated

abbrev pub is_channel : String → Bool
is_channel channel = if channel =text "email" then true else channel =text "sms"

-- `generate_otp`, for a channel in lower case.
unfoldable pub generate_otp : OtpConfig → ℕ → String → Slot → Generated × Slot
generate_otp cfg now channel slot =
    if is_channel channel
    then (if is_some (cached now slot.cooldown) then (rate_limited, slot) else (
      code_sent "123456",
      record {
        code = entry now cfg.otp_expiry "123456";
        attempts = entry now cfg.otp_expiry 0;
        cooldown = entry now cfg.cooldown tt;
      },
    ))
    else (invalid_channel, slot)

-- `generate_and_send_otp`: a code that is not delivered is taken back.
abbrev deliver : (String → Bool) → Generated × Slot → Generated × Slot
deliver send (code_sent code, slot) =
    if send code then (code_sent code, slot) else (undelivered, empty_slot)
deliver send (other, slot) = (other, slot)

unfoldable pub generate_and_send_otp :
    OtpConfig → (String → Bool) → ℕ → String → Slot → Generated × Slot
unfolding generate_otp
generate_and_send_otp cfg send now channel slot = deliver send (generate_otp cfg now channel slot)

-- `True`, `False`, `OTPVerificationError`, `OTPMaxAttemptsReachedError`, and the `TypeError` of
-- `secrets.compare_digest` on a text that is not ASCII.
pub data Verdict : Type 0 where
  verified wrong expired max_attempts_reached type_error : Verdict

-- The deletion of the code and of its attempts.
abbrev pub cleared : Slot → Slot
cleared slot = record slot { code = none; attempts = none }

abbrev pub stored_code : ℕ → Slot → Option String
stored_code now slot = elim (cached now slot.code) [
  | none ↦ none
  | some code ↦ if is_empty code then none else some code
]

-- `verify_otp`, from the comparison on.
abbrev pub compare_code : OtpConfig → String → String → ℕ → Slot → Verdict × Slot
compare_code cfg stored code attempts slot =
    if not (is_ascii stored && is_ascii code)
    then (type_error, slot)
    else if stored =text code
    then (verified, cleared slot)
    else if leb cfg.max_attempts attempts
    then (max_attempts_reached, cleared slot)
    else (wrong, slot)

-- `verify_otp`
unfoldable pub verify_otp : OtpConfig → ℕ → String → Slot → Verdict × Slot
verify_otp cfg now code slot = elim (stored_code now slot) [
  | none ↦ (expired, slot)
  | some stored ↦
      let attempts = get_or (cached now slot.attempts) 0 in
      if leb cfg.max_attempts attempts
      then (max_attempts_reached, cleared slot)
      else compare_code cfg stored code (attempts + 1)
          (record slot { attempts = entry now cfg.otp_expiry (attempts + 1) })
]

-- The guesses that are made one after the other.
abbrev pub verify_all : OtpConfig → List (ℕ × String) → Slot → Slot
verify_all cfg [] slot = slot
verify_all cfg ((now, code) ∷ guesses) slot =
    verify_all cfg guesses (verify_otp cfg now code slot).1

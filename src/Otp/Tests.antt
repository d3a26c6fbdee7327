-- ===== src/Otp/Tests.antt =====
-- A one-time password and its guesses.
use tasker_api.Prelude.{ℕ, ◌≡◌, refl, String, [], ◌∷◌, List, All, arith}
use tasker_api.Otp.{
  OtpConfig, Slot, empty_slot, code_sent, generate_otp, expired, verified, verify_otp, verify_all,
}
use tasker_api.Otp.Guesses.{IsWrong, guesses-expired}

abbrev limits : OtpConfig
limits = record { otp_expiry = 300; cooldown = 60; max_attempts = 3 }

abbrev sent_slot : Slot
sent_slot = (generate_otp limits 1000 "email" empty_slot).1

sent : (generate_otp limits 1000 "email" empty_slot).0 ≡ code_sent "123456"
unfolding generate_otp
sent = refl

-- The right code is accepted in time.
in_time : (verify_otp limits 1299 "123456" sent_slot).0 ≡ verified
unfolding verify_otp generate_otp
in_time = refl

abbrev wrong_guesses : List (ℕ × String)
wrong_guesses = (1001, "000000") ∷ (1002, "111111") ∷ (1003, "654321") ∷ []

each_fails : All (IsWrong limits 1000 "123456") wrong_guesses
each_fails = (
  (omega arith, omega arith, refl, refl),
  ((omega arith, omega arith, refl, refl), ((omega arith, omega arith, refl, refl), tt)),
)

guesses-expired_example :
    let after = verify_all limits wrong_guesses sent_slot in
    verify_otp limits 1004 "123456" after ≡ (expired, after)
guesses-expired_example =
    guesses-expired limits 1000 "email" "123456" empty_slot sent wrong_guesses each_fails
      (omega arith) (omega arith) 1004 "123456"

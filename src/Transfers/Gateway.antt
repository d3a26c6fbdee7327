-- ===== src/Transfers/Gateway.antt =====
-- The payment provider as the transfers see it (app/core/services/payment.py): what a call of
-- `PaymentGateway` can come to, and how `PaystackPaymentGateway` maps what `send_payment` and
-- `verify_transaction` do to it.
use tasker_api.Prelude.{Bool, true, false, Option, some, ◌∷◌}
use tasker_api.Models.{Text, lit, text, truthy}
use tasker_api.Db.{TransferRequest}

-- A `TransferResult` (its `provider_transfer_id`), `TemporaryProviderError(message, code)` or
-- `PermanentProviderError(message, code)`.
pub data TransferOutcome : Type 0 where
  succeeded : Option Text → TransferOutcome
  temporary : Option Text → Text → TransferOutcome
  permanent : Option Text → Text → TransferOutcome

-- What `send_payment` does: it returns a response with this `is_successful`, or it raises.
pub data SendOutcome : Type 0 where
  responded : Option Bool → SendOutcome
  raised_temporary raised_permanent : Option Text → Text → SendOutcome
  timed_out disconnected raised_other : Text → SendOutcome

-- `send_payment`, which is a mock in the source.
unfoldable pub send_payment : TransferRequest → SendOutcome
send_payment request = responded (some true)

-- `PaystackPaymentGateway.transfer`, around a `send_payment`.
unfoldable pub paystack_transfer :
    (TransferRequest → SendOutcome) → TransferRequest → TransferOutcome
paystack_transfer send request = elim (send request) [
  | responded (some true) ↦ succeeded (elim (truthy request.reference) [
    | true ↦ some request.reference
    | false ↦ some request.idempotency_key
  ])
  | responded _ ↦
      permanent (some (text "PROVIDER_REJECTED")) (text "Provider returned unsuccessful response")
  | raised_temporary code message ↦ temporary code message
  | raised_permanent code message ↦ permanent code message
  | timed_out message ↦
      temporary (some (text "TIMEOUT")) (lit "Provider request timed out: " ∷ message)
  | disconnected message ↦
      temporary (some (text "CONNECTION_ERROR")) (lit "Provider connection failed: " ∷ message)
  | raised_other message ↦
      temporary (some (text "UNKNOWN")) (lit "Unexpected provider error: " ∷ message)
]

-- The `status` of a `TransferResult`, which the reconciliation compares with two texts.
pub data LookupStatus : Type 0 where
  success failed other_status : LookupStatus

-- What `get_transfer` returns (status and `provider_transfer_id`), or `TemporaryProviderError`.
pub data LookupOutcome : Type 0 where
  found : LookupStatus → Option Text → LookupOutcome
  unreachable : LookupOutcome

-- What `verify_transaction` does: a response with this `is_successful`, or any exception.
pub data VerifyOutcome : Type 0 where
  verified : Option Bool → VerifyOutcome
  verify_error : VerifyOutcome

-- `PaystackPaymentGateway.get_transfer`, around a `verify_transaction`.
unfoldable pub paystack_get_transfer : (Text → VerifyOutcome) → Text → LookupOutcome
paystack_get_transfer verify provider_transfer_id = elim (verify provider_transfer_id) [
  | verified (some true) ↦ found success (some provider_transfer_id)
  | verified _ ↦ found failed (some provider_transfer_id)
  | verify_error ↦ unreachable
]

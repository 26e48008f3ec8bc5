-- ===== src/Crypto/Tests.antt =====
-- The theorems on proofs and envelopes at the sample primitives.
use cofferwire.Base.{◌≡◌, ◌≤◌, refl, some, [], ◌∷◌, ◌++◌, Bytes, length, ok}
use cofferwire.Wire.{new_auth, max_message_bytes_limit}
use cofferwire.Crypto.{
  MessageContext, sign_request, verify_request, seal_message, open_message, hpke_info_domain,
}
use cofferwire.Crypto.Sample.{filled, sample, sample_signatures, sample_encryption}
use cofferwire.Crypto.Context.{context_bytes-injective}
use cofferwire.Crypto.Proofs.{verify_request-sign_request}
use cofferwire.Crypto.Envelopes.{open_message-seal_message}

abbrev context : MessageContext
context = record {
  queue_id = filled 32 1;
  sender = filled 32 2;
  recipient = filled 32 3;
  message_id = filled 32 5;
}

verify_request-sign_request_example :
    (new_auth (sign_request sample tt (9 ∷ [])) ≡ some (sign_request sample tt (9 ∷ [])))
    × (verify_request sample (filled 32 2) (9 ∷ []) (sign_request sample tt (9 ∷ [])) ≡ ok tt)
verify_request-sign_request_example =
    verify_request-sign_request sample sample_signatures tt (9 ∷ [])

abbrev sealed : Bytes
sealed = 0 ∷ 1 ∷ 0 ∷ 32 ∷ 0 ∷ 1 ∷ 0 ∷ 3 ∷ filled 32 7 ++ (8 ∷ 9 ∷ filled 16 5)

open_message-seal_message_example :
    (open_message sample tt (filled 32 4) context sealed ≡ ok (8 ∷ 9 ∷ []))
    × (length sealed ≤ max_message_bytes_limit)
unfolding seal_message
open_message-seal_message_example =
    open_message-seal_message sample sample_encryption tt tt context (8 ∷ 9 ∷ []) sealed tt refl

context_bytes-injective_example : context ≡ context
context_bytes-injective_example =
    context_bytes-injective hpke_info_domain context context
      (record {
        queue_id-length = refl;
        sender-length = refl;
        recipient-length = refl;
        message_id-length = refl;
      })
      (record {
        queue_id-length = refl;
        sender-length = refl;
        recipient-length = refl;
        message_id-length = refl;
      })
      refl

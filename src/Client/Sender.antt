-- ===== src/Client/Sender.antt =====
-- crates/cofferwire-client/src/lib.rs: Sender.
pub mod Restore
pub mod Completion
use cofferwire.Base.{
  Option, none, some, ◌==◌, ◌!=◌, bytes_same, if◌then◌else◌, Bytes, Result, ok, err, ℕ,
}
use cofferwire.Types.{QueueId, Principal, RequestId, MessageId}
use cofferwire.Cbor.{DecodeError}
use cofferwire.Policy.{accepted, duplicate}
use cofferwire.Wire.{WireRequest, send, send_command, SendRequest, send_response}
use cofferwire.Status.{Response, success, failure}
use cofferwire.Codec.{DecodedRequest, decode_request}
use cofferwire.Crypto.{CryptoError, MessageContext, key_principal, seal_message, verify_request}
use cofferwire.Crypto.Suite.{Primitives}
use cofferwire.Client.{
  ClientError, principal_key_mismatch, crypto, relay_error, unexpected_response,
  invalid_prepared_send, Outside, Step, ◌>>=◌, give, ask, signed_frame, checked_response,
}

pub record PreparedSend : Type 0 where
  pub request_id : RequestId
  pub message_id : MessageId
  pub frame : Bytes

pub data SendCompletion : Type 0 where
  send_accepted send_duplicate : SendCompletion

pub record Sender (p : Primitives) : Type 0 where
  pub queue_id : QueueId
  pub sender : Principal
  pub recipient : Principal
  pub signing_key : p.SigningKey
  pub encryption_key : p.SecretKey
  pub recipient_encryption_key : Bytes

abbrev pub sent : Response → Result ClientError SendCompletion
sent (success (send_response accepted)) = ok send_accepted
sent (success (send_response duplicate)) = ok send_duplicate
sent (failure error) = err (relay_error error.status)
sent (success _) = err unexpected_response

module _ (p : Primitives) where
  -- Sender::new
  abbrev pub new_sender :
      QueueId
      → Principal
      → Principal
      → p.SigningKey
      → p.SecretKey
      → Bytes
      → Result ClientError (Sender p)
  new_sender queue_id sender recipient signing_key encryption_key recipient_encryption_key =
      if key_principal p signing_key != sender
      then err principal_key_mismatch
      else ok (record {
        queue_id = queue_id;
        sender = sender;
        recipient = recipient;
        signing_key = signing_key;
        encryption_key = encryption_key;
        recipient_encryption_key = recipient_encryption_key;
      })

  module _ (s : Sender p) where
    abbrev pub send_context : MessageId → MessageContext
    send_context message_id = record {
      queue_id = s.queue_id;
      sender = s.sender;
      recipient = s.recipient;
      message_id = message_id;
    }

    abbrev pub prepared :
        RequestId → MessageId → ℕ → Result CryptoError Bytes → Result ClientError PreparedSend
    prepared request_id message_id ttl (err x) = err (crypto x)
    prepared request_id message_id ttl (ok ciphertext) = ok (record {
      request_id = request_id;
      message_id = message_id;
      frame = signed_frame p s.signing_key request_id (
          send (record {
            queue_id = s.queue_id;
            sender = s.sender;
            message_id = message_id;
            payload = ciphertext;
            ttl = ttl;
          }));
    })

    -- Sender::prepare
    unfoldable pub prepare :
        RequestId → MessageId → Bytes → ℕ → p.Randomness → Result ClientError PreparedSend
    prepare request_id message_id plaintext ttl draw = prepared request_id message_id ttl (
        seal_message p s.encryption_key s.recipient_encryption_key (send_context message_id)
          plaintext draw)

    abbrev pub restored_send : Bytes → RequestId → WireRequest → Result ClientError PreparedSend
    restored_send bytes request_id (send value) =
        if value.queue_id == s.queue_id
        then if value.sender == s.sender
          then ok (record { request_id = request_id; message_id = value.message_id; frame = bytes })
          else err invalid_prepared_send
        else err invalid_prepared_send
    restored_send bytes request_id _ = err invalid_prepared_send

    abbrev pub verified_send :
        Bytes → DecodedRequest → Result CryptoError (Unit {0}) → Result ClientError PreparedSend
    verified_send bytes decoded (err _) = err invalid_prepared_send
    verified_send bytes decoded (ok _) =
        restored_send bytes decoded.frame.request_id decoded.frame.request

    abbrev pub decoded_send :
        Bytes → Result DecodeError DecodedRequest → Result ClientError PreparedSend
    decoded_send bytes (err _) = err invalid_prepared_send
    decoded_send bytes (ok decoded) =
        verified_send bytes decoded
          (verify_request p s.sender decoded.authenticated_bytes decoded.frame.auth)

    -- Sender::restore
    unfoldable pub restore : Bytes → Result ClientError PreparedSend
    restore bytes = decoded_send bytes (decode_request bytes)

-- Sender::send, which uses nothing of the sender.
unfoldable pub send_prepared : {W : Type 0} → Outside W → PreparedSend → Step W SendCompletion
send_prepared o prepared = do
  bytes ← ask o prepared.frame
  response ← give (checked_response bytes prepared.request_id send_command)
  give (sent response)

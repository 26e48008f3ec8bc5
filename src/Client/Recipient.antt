-- ===== src/Client/Recipient.antt =====
-- crates/cofferwire-client/src/lib.rs: Recipient.
pub mod Log
pub mod Delivers
use cofferwire.Base.{
  Option, none, some, ◌==◌, ◌!=◌, bytes_same, if◌then◌else◌, Bytes, Result, ok, err,
}
use cofferwire.Types.{QueueId, Principal, RequestId, MessageId}
use cofferwire.Wire.{
  fetch, ack, fetch_command, ack_command, WireDelivery, fetch_response, ack_response,
}
use cofferwire.Status.{Response, success, failure}
use cofferwire.Crypto.{MessageContext, key_principal, open_message}
use cofferwire.Crypto.Suite.{Primitives}
use cofferwire.Client.{
  ClientError, principal_key_mismatch, relay_error, unexpected_response, CommitOutcome, applied,
  already_committed, Outside, Step, ◌>>=◌, give, fresh, ask, keep, from_crypto, signed_frame,
  checked_response,
}

pub data PollOutcome : Type 0 where
  empty : PollOutcome
  applied_message redelivery_acknowledged : MessageId → PollOutcome

pub record Recipient (p : Primitives) : Type 0 where
  pub queue_id : QueueId
  pub sender : Principal
  pub recipient : Principal
  pub signing_key : p.SigningKey
  pub encryption_key : p.SecretKey
  pub sender_encryption_key : Bytes

abbrev pub fetched : Response → Result ClientError (Option WireDelivery)
fetched (success (fetch_response delivery)) = ok delivery
fetched (failure error) = err (relay_error error.status)
fetched (success _) = err unexpected_response

abbrev pub polled : MessageId → CommitOutcome → PollOutcome
polled message_id applied = applied_message message_id
polled message_id already_committed = redelivery_acknowledged message_id

abbrev pub acknowledged : MessageId → CommitOutcome → Response → Result ClientError PollOutcome
acknowledged message_id commit (success ack_response) = ok (polled message_id commit)
acknowledged message_id commit (failure error) = err (relay_error error.status)
acknowledged message_id commit (success _) = err unexpected_response

module _ (p : Primitives) where
  -- Recipient::new
  abbrev pub new_recipient :
      QueueId
      → Principal
      → Principal
      → p.SigningKey
      → p.SecretKey
      → Bytes
      → Result ClientError (Recipient p)
  new_recipient queue_id sender recipient signing_key encryption_key sender_encryption_key =
      if key_principal p signing_key != recipient
      then err principal_key_mismatch
      else ok (record {
        queue_id = queue_id;
        sender = sender;
        recipient = recipient;
        signing_key = signing_key;
        encryption_key = encryption_key;
        sender_encryption_key = sender_encryption_key;
      })

  module _ (r : Recipient p) where
    abbrev pub fetch_frame : RequestId → Bytes
    fetch_frame id =
        signed_frame p r.signing_key id
          (fetch (record { queue_id = r.queue_id; recipient = r.recipient }))

    abbrev pub ack_frame : RequestId → MessageId → Bytes
    ack_frame id message_id =
        signed_frame p r.signing_key id
          (ack (record { queue_id = r.queue_id; recipient = r.recipient; message_id = message_id }))

    abbrev pub opened : WireDelivery → Result ClientError Bytes
    opened delivery = from_crypto (
        open_message p r.encryption_key r.sender_encryption_key
          (record {
            queue_id = r.queue_id;
            sender = r.sender;
            recipient = r.recipient;
            message_id = delivery.message_id;
          })
          delivery.payload)

    module _ {W : Type 0} (o : Outside W) where
      -- From a delivery to the end of the poll.
      unfoldable pub poll_delivery : WireDelivery → Step W PollOutcome
      poll_delivery delivery = do
        plaintext ← give (opened delivery)
        commit ← keep o delivery.message_id plaintext
        ack_id ← fresh o
        bytes ← ask o (ack_frame ack_id delivery.message_id)
        response ← give (checked_response bytes ack_id ack_command)
        give (acknowledged delivery.message_id commit response)

      abbrev pub poll_fetched : Option WireDelivery → Step W PollOutcome
      poll_fetched none = give (ok empty)
      poll_fetched (some delivery) = poll_delivery delivery

      -- Recipient::poll
      unfoldable pub poll : Step W PollOutcome
      poll = do
        fetch_id ← fresh o
        bytes ← ask o (fetch_frame fetch_id)
        response ← give (checked_response bytes fetch_id fetch_command)
        delivery ← give (fetched response)
        poll_fetched delivery

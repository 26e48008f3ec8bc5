-- ===== src/Client.antt =====
-- crates/cofferwire-client/src/lib.rs: the state machines of a sender and of a recipient. The traits
-- Transport, InboxStore and RequestIdSource are the record Outside, over the state of what implements
-- them; the cryptographic libraries are parameters.
pub mod Sender
pub mod Recipient
mod Tests
use cofferwire.Base.{
  Bool, false, Option, none, some, ◌==◌, ◌!=◌, bytes_same, nat_same, if◌then◌else◌, Bytes, Result,
  ok, err,
}
use cofferwire.Types.{RequestId, MessageId}
use cofferwire.Cbor.{DecodeError}
use cofferwire.Wire.{Command, command_code, WireRequest}
use cofferwire.Status.{Status, Response, response_command}
use cofferwire.Codec.{encode_request, encode_authenticated_request}
use cofferwire.Codec.Responses.{ResponseFrame, decode_response, optional_command_code}
use cofferwire.Crypto.{CryptoError, sign_request}
use cofferwire.Crypto.Suite.{Primitives}

pub data TransportError : Type 0 where
  transport_error : TransportError

pub data StoreError : Type 0 where
  store_error : StoreError

pub data CommitOutcome : Type 0 where
  applied already_committed : CommitOutcome

pub data ClientError : Type 0 where
  principal_key_mismatch : ClientError
  transport : TransportError → ClientError
  decode : DecodeError → ClientError
  crypto : CryptoError → ClientError
  response_request_id_mismatch response_command_mismatch : ClientError
  relay_error : Status → ClientError
  unexpected_response : ClientError
  store : StoreError → ClientError
  invalid_prepared_send : ClientError

pub record Outside (W : Type 0) : Type 0 where
  pub exchange : Bytes → W → Result TransportError Bytes × W
  pub commit : MessageId → Bytes → W → Result StoreError CommitOutcome × W
  pub next_request_id : W → RequestId × W

-- The conversions of errors, From for ClientError.
module _ {A : Type 0} where
  abbrev pub from_transport : Result TransportError A → Result ClientError A
  from_transport (ok a) = ok a
  from_transport (err x) = err (transport x)

  abbrev pub from_decode : Result DecodeError A → Result ClientError A
  from_decode (ok a) = ok a
  from_decode (err x) = err (decode x)

  abbrev pub from_crypto : Result CryptoError A → Result ClientError A
  from_crypto (ok a) = ok a
  from_crypto (err x) = err (crypto x)

  abbrev pub from_store : Result StoreError A → Result ClientError A
  from_store (ok a) = ok a
  from_store (err x) = err (store x)

-- A step with `?`: the state is kept, and the first error ends it.
abbrev pub Step : Type 0 → Type 0 → Type 0
Step W A = W → Result ClientError A × W

module _ {W A : Type 0} where
  abbrev pub bound :
      {B : Type 0} → Result ClientError A × W → (A → Step W B) → Result ClientError B × W
  bound (ok a, w) k = k a w
  bound (err x, w) k = (err x, w)

  infixl 5 ◌>>=◌
  abbrev pub ◌>>=◌ : {B : Type 0} → Step W A → (A → Step W B) → Step W B
  (s >>= k) w = bound (s w) k

  abbrev pub give : Result ClientError A → Step W A
  give r w = (r, w)

module _ {W : Type 0} (o : Outside W) where
  abbrev pub fresh : Step W RequestId
  fresh w = let (id, w') = o.next_request_id w in (ok id, w')

  abbrev pub ask : Bytes → Step W Bytes
  ask bytes w = let (answer, w') = o.exchange bytes w in (from_transport answer, w')

  abbrev pub keep : MessageId → Bytes → Step W CommitOutcome
  keep id plaintext w = let (answer, w') = o.commit id plaintext w in (from_store answer, w')

-- The derived equality of Command, and that of Option<Command> with a command.
abbrev pub is_command : Option Command → Command → Bool
is_command none command = false
is_command (some one) two = command_code one == command_code two

unfoldable pub signed_frame : (p : Primitives) → p.SigningKey → RequestId → WireRequest → Bytes
signed_frame p key request_id request =
    let authenticated = encode_authenticated_request request_id request in
    encode_request (record {
      request_id = request_id;
      request = request;
      auth = sign_request p key authenticated;
    })

abbrev pub checked_frame :
    RequestId → Command → Result ClientError ResponseFrame → Result ClientError Response
checked_frame request_id command (err x) = err x
checked_frame request_id command (ok frame) =
    if frame.request_id != request_id
    then err response_request_id_mismatch
    else if is_command (response_command frame.response) command
    then ok frame.response
    else err response_command_mismatch

unfoldable pub checked_response : Bytes → RequestId → Command → Result ClientError Response
checked_response bytes request_id command =
    checked_frame request_id command (from_decode (decode_response bytes))

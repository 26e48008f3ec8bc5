-- ===== src/Wire.antt =====
-- crates/cofferwire-types/src/body.rs, limits.rs and payload.rs: the requests and responses of the
-- queue protocol.
use cofferwire.Base.{ℕ, Option, none, some, ltb, if◌then◌else◌, Bytes, length, ◌==◌, nat_same}
use cofferwire.Types.{QueueId, Principal, MessageId, Timestamp}
use cofferwire.Policy.{CreateQueueOutcome, SendOutcome}

abbrev pub max_message_bytes_limit : ℕ
max_message_bytes_limit = 64374

-- The limits that a request carries; new_limits of the relay checks them again.
pub record WireLimits : Type 0 where
  pub max_messages : ℕ
  pub max_message_bytes : ℕ

pub record CreateQueueRequest : Type 0 where
  pub queue_id : QueueId
  pub sender : Principal
  pub recipient : Principal
  pub limits : WireLimits

pub record SendRequest : Type 0 where
  pub queue_id : QueueId
  pub sender : Principal
  pub message_id : MessageId
  pub payload : Bytes
  pub ttl : ℕ

pub record FetchRequest : Type 0 where
  pub queue_id : QueueId
  pub recipient : Principal

pub record AckRequest : Type 0 where
  pub queue_id : QueueId
  pub recipient : Principal
  pub message_id : MessageId

pub record DeleteQueueRequest : Type 0 where
  pub queue_id : QueueId
  pub recipient : Principal

pub data WireRequest : Type 0 where
  create_queue : CreateQueueRequest → WireRequest
  send : SendRequest → WireRequest
  fetch : FetchRequest → WireRequest
  ack : AckRequest → WireRequest
  delete_queue : DeleteQueueRequest → WireRequest

pub record WireDelivery : Type 0 where
  pub message_id : MessageId
  pub payload : Bytes
  pub expires_at : Timestamp

pub data ResponseBody : Type 0 where
  create_queue_response : CreateQueueOutcome → ResponseBody
  send_response : SendOutcome → ResponseBody
  fetch_response : Option WireDelivery → ResponseBody
  ack_response delete_queue_response : ResponseBody

-- Payload::new
abbrev pub new_payload : Bytes → Option Bytes
new_payload bytes = if ltb max_message_bytes_limit (length bytes) then none else some bytes

abbrev pub max_auth_bytes : ℕ
max_auth_bytes = 1024

abbrev pub max_frame_bytes : ℕ
max_frame_bytes = 65536

pub data Command : Type 0 where
  create_queue_command send_command fetch_command ack_command delete_queue_command : Command

-- Command::as_u8
abbrev pub command_code : Command → ℕ
command_code create_queue_command = 1
command_code send_command = 2
command_code fetch_command = 3
command_code ack_command = 4
command_code delete_queue_command = 5

-- TryFrom<u8> for Command
abbrev pub command_from : ℕ → Option Command
command_from value =
    if value == 1
    then some create_queue_command
    else if value == 2
    then some send_command
    else if value == 3
    then some fetch_command
    else if value == 4
    then some ack_command
    else if value == 5
    then some delete_queue_command
    else none

-- Request::command
abbrev pub request_command : WireRequest → Command
request_command (create_queue _) = create_queue_command
request_command (send _) = send_command
request_command (fetch _) = fetch_command
request_command (ack _) = ack_command
request_command (delete_queue _) = delete_queue_command

-- QueueLimits::new of the wire
abbrev pub new_wire_limits : ℕ → ℕ → Option WireLimits
new_wire_limits max_messages max_message_bytes =
    if max_messages == 0
    then none
    else if max_message_bytes == 0
    then none
    else if ltb max_message_bytes_limit max_message_bytes
    then none
    else some (record { max_messages = max_messages; max_message_bytes = max_message_bytes })

-- Auth::new
abbrev pub new_auth : Bytes → Option Bytes
new_auth bytes = if ltb max_auth_bytes (length bytes) then none else some bytes

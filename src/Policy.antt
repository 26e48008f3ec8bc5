-- ===== src/Policy.antt =====
-- crates/cofferwire-relay/src/lib.rs: the limits and the access policy of a queue, and what the
-- operations of a relay return. Both relays share them.
use cofferwire.Base.{
  ℕ, Bool, false, Option, none, some, ◌==◌, ◌!=◌, nat_same, bytes_same, if◌then◌else◌, Bytes,
}
use cofferwire.Types.{Principal, MessageId, Timestamp}

-- Ttl::from_secs; a lifetime is a number that is not 0.
abbrev pub ttl_from_secs : ℕ → Option ℕ
ttl_from_secs seconds = if seconds == 0 then none else some seconds

pub record QueueLimits : Type 0 where
  pub max_messages : ℕ
  pub max_message_bytes : ℕ

-- QueueLimits::new
abbrev pub new_limits : ℕ → ℕ → Option QueueLimits
new_limits max_messages max_message_bytes =
    if max_messages == 0
    then none
    else if max_message_bytes == 0
    then none
    else some (record { max_messages = max_messages; max_message_bytes = max_message_bytes })

pub record QueueConfig : Type 0 where
  pub sender : Principal
  pub recipient : Principal
  pub limits : QueueLimits

-- The derived equality of QueueConfig.
abbrev pub same_config : QueueConfig → QueueConfig → Bool
same_config a b =
    if a.sender != b.sender
    then false
    else if a.recipient != b.recipient
    then false
    else if a.limits.max_messages != b.limits.max_messages
    then false
    else a.limits.max_message_bytes == b.limits.max_message_bytes

-- What fetch returns.
pub record Letter : Type 0 where
  pub id : MessageId
  pub payload : Bytes
  pub expires_at : Timestamp

pub data RelayError : Type 0 where
  queue_not_found unauthorized queue_id_conflict message_id_conflict : RelayError
  message_too_large queue_full expiry_overflow limit_out_of_range : RelayError
  ack_mismatch not_delivered : RelayError

pub data CreateQueueOutcome : Type 0 where
  created already_exists : CreateQueueOutcome

pub data SendOutcome : Type 0 where
  accepted duplicate : SendOutcome

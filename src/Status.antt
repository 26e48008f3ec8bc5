-- ===== src/Status.antt =====
-- crates/cofferwire-types/src/status.rs and body.rs: the status codes and the responses of the queue
-- protocol.
pub mod Codes
use cofferwire.Base.{ℕ, Bool, true, false, Option, none, some, ◌==◌, nat_same, if◌then◌else◌}
use cofferwire.Policy.{
  CreateQueueOutcome, created, already_exists, SendOutcome, accepted, duplicate,
}
use cofferwire.Wire.{
  Command, create_queue_command, send_command, fetch_command, ack_command, delete_queue_command,
  ResponseBody, create_queue_response, send_response, fetch_response, ack_response,
  delete_queue_response,
}

pub data Status : Type 0 where
  ok_status unsupported_version_status malformed_frame frame_too_large_status : Status
  unknown_command queue_not_found_status unauthorized_status queue_id_conflict_status : Status
  message_id_conflict_status message_too_large_status queue_full_status : Status
  expiry_overflow_status ack_mismatch_status not_delivered_status auth_invalid : Status
  limit_out_of_range_status auth_replay : Status

-- Status::as_u8
abbrev pub status_code : Status → ℕ
status_code ok_status = 0
status_code unsupported_version_status = 1
status_code malformed_frame = 2
status_code frame_too_large_status = 3
status_code unknown_command = 4
status_code queue_not_found_status = 5
status_code unauthorized_status = 6
status_code queue_id_conflict_status = 7
status_code message_id_conflict_status = 8
status_code message_too_large_status = 9
status_code queue_full_status = 10
status_code expiry_overflow_status = 11
status_code ack_mismatch_status = 12
status_code not_delivered_status = 13
status_code auth_invalid = 14
status_code limit_out_of_range_status = 15
status_code auth_replay = 16

-- Status::is_ok
abbrev pub is_ok : Status → Bool
is_ok ok_status = true
is_ok _ = false

-- TryFrom<u8> for Status
unfoldable pub status_from : ℕ → Option Status
status_from value =
    if value == 0
    then some ok_status
    else if value == 1
    then some unsupported_version_status
    else if value == 2
    then some malformed_frame
    else if value == 3
    then some frame_too_large_status
    else if value == 4
    then some unknown_command
    else if value == 5
    then some queue_not_found_status
    else if value == 6
    then some unauthorized_status
    else if value == 7
    then some queue_id_conflict_status
    else if value == 8
    then some message_id_conflict_status
    else if value == 9
    then some message_too_large_status
    else if value == 10
    then some queue_full_status
    else if value == 11
    then some expiry_overflow_status
    else if value == 12
    then some ack_mismatch_status
    else if value == 13
    then some not_delivered_status
    else if value == 14
    then some auth_invalid
    else if value == 15
    then some limit_out_of_range_status
    else if value == 16
    then some auth_replay
    else none

-- CreateQueueOutcome::as_u8 and its TryFrom<u8>
abbrev pub create_outcome_code : CreateQueueOutcome → ℕ
create_outcome_code created = 0
create_outcome_code already_exists = 1

abbrev pub create_outcome_from : ℕ → Option CreateQueueOutcome
create_outcome_from value =
    if value == 0 then some created else if value == 1 then some already_exists else none

-- SendOutcome::as_u8 and its TryFrom<u8>
abbrev pub send_outcome_code : SendOutcome → ℕ
send_outcome_code accepted = 0
send_outcome_code duplicate = 1

abbrev pub send_outcome_from : ℕ → Option SendOutcome
send_outcome_from value =
    if value == 0 then some accepted else if value == 1 then some duplicate else none

pub record ErrorResponse : Type 0 where
  pub command : Option Command
  pub status : Status

-- ErrorResponse::new
abbrev pub new_error_response : Option Command → Status → Option ErrorResponse
new_error_response command status =
    if is_ok status then none else some (record { command = command; status = status })

pub data Response : Type 0 where
  success : ResponseBody → Response
  failure : ErrorResponse → Response

-- ResponseBody::command
abbrev pub body_command : ResponseBody → Command
body_command (create_queue_response _) = create_queue_command
body_command (send_response _) = send_command
body_command (fetch_response _) = fetch_command
body_command ack_response = ack_command
body_command delete_queue_response = delete_queue_command

-- Response::command
abbrev pub response_command : Response → Option Command
response_command (success body) = some (body_command body)
response_command (failure error) = error.command

-- Response::status
abbrev pub response_status : Response → Status
response_status (success _) = ok_status
response_status (failure error) = error.status

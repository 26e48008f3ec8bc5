-- ===== src/Types.antt =====
-- crates/cofferwire-types: identifiers, times and limits. An identifier (ids.rs) is its byte string,
-- 16 bytes for RequestId and 32 for the others; time.rs counts whole seconds in a u64.
use cofferwire.Base.{ℕ, ◌+◌, ◌^◌, Option, none, some, ltb, if◌then◌else◌, Bytes}

abbrev pub u64_mod : ℕ
u64_mod = 2 ^ 64

abbrev pub QueueId : Type 0
QueueId = Bytes

abbrev pub Principal : Type 0
Principal = Bytes

abbrev pub MessageId : Type 0
MessageId = Bytes

abbrev pub RequestId : Type 0
RequestId = Bytes

abbrev pub Timestamp : Type 0
Timestamp = ℕ

-- u64::checked_add
abbrev pub checked_add : ℕ → ℕ → Option ℕ
checked_add a b = if ltb (a + b) u64_mod then some (a + b) else none

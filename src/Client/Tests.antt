-- ===== src/Client/Tests.antt =====
-- A sender and a recipient at the sample primitives, and the theorems at them.
use cofferwire.Base.{
  ℕ, suc, ◌≡◌, ◌↔◌, refl, some, [], ◌∷◌, ◌++◌, Bytes, ok, err, ◌==◌, nat_same, if◌then◌else◌, arith,
}
use cofferwire.Base.BigEndian.{Each-all_bytes}
use cofferwire.Wire.{WireDelivery, fetch_response, ack_response}
use cofferwire.Codec.Responses.{encode_response}
use cofferwire.Crypto.{seal_message}
use cofferwire.Crypto.Sample.{filled, sample, sample_signatures, sample_encryption}
use cofferwire.Client.{Outside, applied, store_error}
use cofferwire.Client.Sender.{Sender, PreparedSend, prepare, restore, send_prepared, send_accepted}
use cofferwire.Client.Sender.Restore.{restore-prepare, IsSender, sending}
use cofferwire.Client.Sender.Completion.{completing, send_prepared-completes}
use cofferwire.Client.Recipient.{Recipient, poll, applied_message}
use cofferwire.Client.Recipient.Log.{Polled, logged, poll-Polled}
use cofferwire.Client.Recipient.Delivers.{answering, poll-delivers}

abbrev device : Sender sample
device = record {
  queue_id = filled 32 1;
  sender = filled 32 2;
  recipient = filled 32 3;
  signing_key = tt;
  encryption_key = tt;
  recipient_encryption_key = filled 32 4;
}

abbrev envelope : Bytes
envelope = 0 ∷ 1 ∷ 0 ∷ 32 ∷ 0 ∷ 1 ∷ 0 ∷ 3 ∷ filled 32 7 ++ (8 ∷ 9 ∷ filled 16 5)

abbrev outgoing : PreparedSend
outgoing =
    sending sample sample_signatures sample_encryption device (filled 16 7) (filled 32 5) envelope
      60

device-IsSender : IsSender sample sample_signatures sample_encryption device
device-IsSender = record { owned = refl; queue_id-length = refl }

restore-prepare_example : restore sample device outgoing.frame ≡ ok outgoing
unfolding prepare seal_message
restore-prepare_example =
    restore-prepare sample sample_signatures sample_encryption device (filled 16 7) (filled 32 5)
      (8 ∷ 9 ∷ []) 60 tt outgoing device-IsSender refl refl (omega arith) refl

-- A relay that answers the first call with a delivery, and later ones with a confirmation; each
-- call counts.
abbrev letter : WireDelivery
letter = record { message_id = filled 32 5; payload = envelope; expires_at = 3600 }

abbrev relay_side : Outside ℕ
relay_side = record {
  exchange = λ bytes w.
      let answer =
        if w == 1
        then answering (filled 16 0) (fetch_response (some letter))
        else answering (filled 16 3) ack_response in
      (ok (encode_response answer), suc w);
  commit = λ id plaintext w. (ok applied, suc w);
  next_request_id = λ w. (filled 16 w, suc w);
}

abbrev inbox : Recipient sample
inbox = record {
  queue_id = filled 32 1;
  sender = filled 32 2;
  recipient = filled 32 3;
  signing_key = tt;
  encryption_key = tt;
  sender_encryption_key = filled 32 4;
}

poll-delivers_example : poll sample inbox relay_side 0 ≡ (ok (applied_message (filled 32 5)), 5)
unfolding seal_message
poll-delivers_example =
    poll-delivers sample sample_encryption inbox tt relay_side 0 letter (8 ∷ 9 ∷ []) applied 5 tt
      refl refl refl (omega arith)
      (record {
        i = filled 16 0;
        j = filled 16 3;
        one = 1;
        two = 2;
        three = 3;
        four = 4;
        fetch_id = refl;
        fetch_id-length = refl;
        delivery = refl;
        commit = refl;
        ack_id = refl;
        ack_id-length = refl;
        confirmation = refl;
      })

poll-Polled_example :
    let (result, (_, log)) = poll sample inbox (logged relay_side) (0, []) in
    Polled sample inbox log result
poll-Polled_example = poll-Polled sample inbox relay_side 0

abbrev accepted_answer : Bytes
accepted_answer = 1 ∷ filled 16 7 ++ 132 ∷ 1 ∷ 2 ∷ 0 ∷ 129 ∷ 0 ∷ []

abbrev accepting : Outside ℕ
accepting = record {
  exchange = λ bytes w. (ok accepted_answer, w);
  commit = λ id plaintext w. (err store_error, w);
  next_request_id = λ w. (filled 16 w, suc w);
}

send_prepared-completes_example :
    ((send_prepared accepting outgoing 0).0 ≡ ok send_accepted)
    ↔ (accepted_answer ≡ encode_response (completing (filled 16 7) send_accepted))
send_prepared-completes_example =
    send_prepared-completes accepting outgoing 0 accepted_answer send_accepted refl
      (Each-all_bytes accepted_answer refl) refl

-- ===== src/Receipt/Tests.antt =====
-- Tests and examples of receipts.
use cofferwire.Base.{
  none, ap, bytes_beq, ◌≡◌, ◌≢◌, refl, Bool, true, false, some, [], ◌∷◌, ◌++◌, Bytes, length, ok,
  err, arith,
}
use cofferwire.Base.BigEndian.{to_be}
use cofferwire.Crypto.Sample.{sample, sample_signatures, filled}
use cofferwire.Receipt.{
  ConfirmedObject, AppliedReceipt, ReceiptStore, build_applied_receipt, verify_applied_receipt,
  verify_and_record_applied_receipt, newly_recorded, already_recorded, object_mismatch,
  content_mismatch, receipt_malformed,
}
use cofferwire.Receipt.Verified.{verify_and_record_applied_receipt-build_applied_receipt}

-- A digest that tells contents of two lengths apart.
abbrev measured : Bytes → Bytes
measured content = length content ∷ filled 31 48

abbrev confirmed_object : ConfirmedObject
confirmed_object = record {
  queue_id = filled 32 1;
  sender = filled 32 2;
  recipient = filled 32 3;
  message_id = filled 32 5;
}

-- A store that says if it has a receipt.
abbrev flag_store : ReceiptStore Bool
flag_store c true = (ok already_recorded, true)
flag_store c false = (ok newly_recorded, true)

abbrev confirming : AppliedReceipt
confirming = record {
  confirmed = confirmed_object;
  applied_content_digest = measured (7 ∷ []);
  applied_at_secs = 300;
}

receipt_bytes :
    build_applied_receipt sample measured tt confirmed_object (7 ∷ []) 300
    ≡ 67 ∷ 87 ∷ 82 ∷ 49 ∷ 1 ∷ filled 32 1
      ++ (filled 32 2
          ++ (filled 32 3
              ++ (filled 32 5
                  ++ (1 ∷ filled 31 48 ++ (0 ∷ 0 ∷ 0 ∷ 0 ∷ 0 ∷ 0 ∷ 1 ∷ 44 ∷ filled 64 6)))))
unfolding build_applied_receipt to_be
receipt_bytes = refl

short_receipt :
    verify_applied_receipt sample (filled 32 2) (67 ∷ 87 ∷ 82 ∷ 49 ∷ 1 ∷ []) ≡ err receipt_malformed
unfolding verify_applied_receipt
short_receipt = refl

abbrev elsewhere : ConfirmedObject
elsewhere = record confirmed_object { message_id = filled 32 6 }

confirmed_object_ne : confirmed_object ≢ elsewhere
unfolding bytes_beq
confirmed_object_ne h = absurd (
    let ids = ap (λ c. bytes_beq c.message_id (filled 32 5)) h in
    let differ : true ≡ false = ids in ground (arith, differ))

measured_ne : measured (7 ∷ []) ≢ measured (7 ∷ 8 ∷ [])
unfolding bytes_beq
measured_ne h = absurd (
    let sizes = ap (λ d. bytes_beq d (measured (7 ∷ []))) h in
    let differ : true ≡ false = sizes in ground (arith, differ))

abbrev receipt : Bytes
receipt = build_applied_receipt sample measured tt confirmed_object (7 ∷ []) 300

verify_and_record_applied_receipt-build_applied_receipt_example :
    (verify_and_record_applied_receipt sample measured flag_store
        (filled 32 2)
        confirmed_object
        (some (7 ∷ []))
        receipt
        false
      ≡ (ok (confirming, newly_recorded), true))
    × (verify_and_record_applied_receipt sample measured flag_store
          (filled 32 2)
          elsewhere
          none
          receipt
          false
        ≡ (err object_mismatch, false))
    × (verify_and_record_applied_receipt sample measured flag_store
          (filled 32 2)
          confirmed_object
          (some (7 ∷ 8 ∷ []))
          receipt
          false
        ≡ (err content_mismatch, false))
verify_and_record_applied_receipt-build_applied_receipt_example =
    verify_and_record_applied_receipt-build_applied_receipt sample sample_signatures measured
      (λ content. refl) flag_store tt confirmed_object elsewhere (7 ∷ []) (7 ∷ 8 ∷ []) none 300
      false
      (record {
        queue_id_sized = refl;
        sender_sized = refl;
        recipient_sized = refl;
        message_id_sized = refl;
      })
      (omega arith) confirmed_object_ne measured_ne

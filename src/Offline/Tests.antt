-- ===== src/Offline/Tests.antt =====
-- Tests and examples of bundles.
use cofferwire.Base.{
  Result, pair_same, ◌≡◌, refl, some, [], ◌∷◌, ◌++◌, nat_same, bytes_same, bytes_beq, Bytes, ok,
  err, arith,
}
use cofferwire.Types.{QueueId}
use cofferwire.Crypto.{MessageContext, seal_message}
use cofferwire.Crypto.Sample.{sample, sample_encryption, filled}
use cofferwire.Base.BigEndian.{to_be, from_be}
use cofferwire.Cbor.{split_at}
use cofferwire.Codec.{take_bytes}
use cofferwire.Offline.{
  cursor_byte, cursor_bytes, decode_kind, decode_identity, decode_counted_hints, decode_hints,
  recipient_role, BundleFields, ImportError, ImportOutcome, encode_fields, seal_bundle, open_bundle,
  malformed, unsupported_version, decode_fields,
}
use cofferwire.Offline.Fields.{IsFields, IdentitySized}
use cofferwire.Base.Map
use cofferwire.Base.Map.{Map}
use cofferwire.Offline.Bundles.{open_bundle-seal_bundle}
use cofferwire.Offline.Peers.{Peers, peers_store, peers_laws}
use cofferwire.Offline.Imports.{Import, import_all, import_bundle}

abbrev recovery_context : MessageContext
recovery_context = record {
  queue_id = filled 32 1;
  sender = filled 32 2;
  recipient = filled 32 3;
  message_id = filled 32 5;
}

abbrev recovery : BundleFields
recovery = record {
  role = recipient_role;
  peer_principal = filled 32 2;
  peer_encryption_public_key = filled 32 4;
  created_at_secs = 300;
  own_identity = some (record { signing_seed = filled 32 8; encryption_ikm = filled 32 9 });
  relay_hints = (104 ∷ 105 ∷ []) ∷ [] ∷ [];
}

abbrev recovery_bytes : Bytes
recovery_bytes =
    2 ∷ 1 ∷ filled 32 2
    ++ (filled 32 4
        ++ (0 ∷ 0 ∷ 0 ∷ 0 ∷ 0 ∷ 0 ∷ 1 ∷ 44 ∷ filled 32 8
            ++ (filled 32 9 ++ (2 ∷ 0 ∷ 2 ∷ 104 ∷ 105 ∷ 0 ∷ 0 ∷ []))))

encoded_recovery : encode_fields recovery ≡ ok recovery_bytes
unfolding encode_fields to_be
encoded_recovery = refl

-- A byte after the last hint.
trailing_byte : decode_fields sample (recovery_bytes ++ 0 ∷ []) ≡ err malformed
unfolding cursor_byte cursor_bytes split_at decode_kind decode_identity decode_counted_hints
    decode_hints from_be
trailing_byte = refl

abbrev recovery_envelope : Bytes
recovery_envelope =
    67 ∷ 87 ∷ 79 ∷ 66 ∷ 1 ∷ filled 32 1
    ++ (filled 32 5
        ++ (0 ∷ 1 ∷ 0 ∷ 32 ∷ 0 ∷ 1 ∷ 0 ∷ 3 ∷ filled 32 7 ++ (recovery_bytes ++ filled 16 5)))

sealed_recovery :
    seal_bundle sample recovery_context tt (filled 32 4) recovery tt ≡ ok recovery_envelope
unfolding seal_bundle encode_fields seal_message to_be
sealed_recovery = refl

recovery-IsFields : IsFields sample recovery
unfolding IdentitySized
recovery-IsFields = record {
  principal_sized = refl;
  key_sized = refl;
  key_valid = refl;
  created_fits = omega arith;
  identity_sized = (refl, refl);
}

open_bundle-seal_bundle_example :
    open_bundle sample tt (filled 32 3) (filled 32 2) (filled 32 4) recovery_envelope
    ≡ ok (filled 32 1, filled 32 5, recovery)
open_bundle-seal_bundle_example =
    open_bundle-seal_bundle sample sample_encryption tt tt recovery_context recovery tt
      recovery_envelope refl refl recovery-IsFields sealed_recovery

-- The other version of an envelope, and an envelope that is too short.
other_version :
    open_bundle sample tt
      (filled 32 3)
      (filled 32 2)
      (filled 32 4)
      (67 ∷ 87 ∷ 79 ∷ 66 ∷ 2 ∷ filled 64 1)
    ≡ err unsupported_version
unfolding open_bundle split_at take_bytes bytes_beq
other_version = refl

short_envelope :
    open_bundle sample tt (filled 32 3) (filled 32 2) (filled 32 4) (67 ∷ 87 ∷ 79 ∷ 66 ∷ 1 ∷ [])
    ≡ err malformed
unfolding open_bundle split_at take_bytes bytes_beq
short_envelope = refl

-- An import of the bundle above into the empty store, then, after a bundle that does not open, again,
-- and an import of a bundle for another peer.
abbrev peers_kept : Peers
peers_kept = ((filled 32 1, 1), (filled 32 2, filled 32 5 ∷ [])) ∷ []

abbrev stranger : BundleFields
stranger = record recovery { peer_principal = filled 32 6 }

abbrev stranger_envelope : Bytes
stranger_envelope =
    67 ∷ 87 ∷ 79 ∷ 66 ∷ 1 ∷ filled 32 1
    ++ (filled 32 5
        ++ (0 ∷ 1 ∷ 0 ∷ 32 ∷ 0 ∷ 1 ∷ 0 ∷ 3 ∷ filled 32 7
            ++ (2 ∷ 1 ∷ filled 32 6
                ++ (filled 32 4
                    ++ (0 ∷ 0 ∷ 0 ∷ 0 ∷ 0 ∷ 0 ∷ 1 ∷ 44 ∷ filled 32 8
                        ++ (filled 32 9 ++ (2 ∷ 0 ∷ 2 ∷ 104 ∷ 105 ∷ 0 ∷ 0 ∷ filled 16 5)))))))

abbrev import_of : Bytes → Import sample peers_store peers_laws
import_of envelope = record {
  importing = tt;
  importer = filled 32 3;
  exporter = filled 32 2;
  exporter_key = filled 32 4;
  bundle = envelope;
}

abbrev after_short : Peers
after_short = import_all sample peers_store peers_laws (import_of [] ∷ []) peers_kept

abbrev second :
    Import sample peers_store peers_laws
    → Result ImportError (QueueId × BundleFields × ImportOutcome)
second i = (import_bundle sample peers_store peers_laws i after_short).0

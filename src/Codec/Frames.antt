-- ===== src/Codec/Frames.antt =====
-- A frame is decoded from its encoding.
use cofferwire.Base.{
  ℕ, zero, suc, ◌+◌, ◌≡◌, ◌≤◌, refl, true, false, [], ◌∷◌, ◌++◌, ltb, ◌==◌, nat_same, Bytes, length,
  length-append, ok, arith, ap, ◌∙◌,
}
use mathlib.Core.List.{append_assoc, append-nil}
use cofferwire.Cbor.{encode_bytes}
use cofferwire.Cbor.Arguments.{split_at_lem}
use cofferwire.Wire.{max_frame_bytes, max_auth_bytes}
use cofferwire.Codec.{
  RequestFrame, encode_preamble, encode_request_payload, encode_authenticated_request,
  encode_request, decode_preamble, decode_auth, take_bytes, decode_request,
}
use cofferwire.Codec.Bodies.{Reads-request_payload, Reads-auth}
use cofferwire.Codec.Sizes.{IsRequestFrame, encode_request-bound}

pub take_bytes_lem :
    (bytes rest : Bytes) (k : ℕ) → length bytes ≡ k → take_bytes k (bytes ++ rest) ≡ bytes
unfolding take_bytes
take_bytes_lem [] rest zero h = refl
take_bytes_lem [] rest (suc k) h = absurd (omega arith)
take_bytes_lem (b ∷ bytes) rest zero h = absurd (omega arith)
take_bytes_lem (b ∷ bytes) rest (suc k) h =
    ap (λ bs. b ∷ bs) (take_bytes_lem bytes rest k (omega arith))

pub decode_preamble_lem :
    (request_id rest : Bytes)
    → length request_id ≡ 16
    → length (encode_preamble request_id ++ rest) ≤ max_frame_bytes
    → decode_preamble (encode_preamble request_id ++ rest)
      ≡ ok (request_id, record { rest = rest; offset = 17 })
unfolding decode_preamble
decode_preamble_lem request_id rest h u =
    let fits : ltb max_frame_bytes (length (encode_preamble request_id ++ rest)) ≡ false =
      ground arith in
    let whole : length (1 ∷ request_id) ≡ 17 = omega arith in
    let split = rw whole at (split_at_lem (1 ∷ request_id) rest) in rw (fits, split) refl

-- A frame in its parts.
encode_request-parts :
    (f : RequestFrame)
    → encode_request f
      ≡ encode_preamble f.request_id ++ (encode_request_payload f.request ++ encode_bytes f.auth)
unfolding encode_request
encode_request-parts f =
    append_assoc (encode_preamble f.request_id) (encode_request_payload f.request)
      (encode_bytes f.auth)

take_bytes-authenticated :
    (f : RequestFrame)
    → length f.request_id ≡ 16
    → take_bytes (17 + length (encode_request_payload f.request)) (encode_request f)
      ≡ encode_authenticated_request f.request_id f.request
unfolding encode_request
take_bytes-authenticated f i =
    take_bytes_lem (encode_authenticated_request f.request_id f.request) (encode_bytes f.auth) _
      (omega (arith, length-append (1 ∷ f.request_id) (encode_request_payload f.request)))

decode_auth-last :
    (auth : Bytes) (offset : ℕ)
    → length auth ≤ max_auth_bytes
    → decode_auth (record { rest = encode_bytes auth; offset = offset })
      ≡ ok (auth, record { rest = []; offset = offset + length (encode_bytes auth) })
decode_auth-last auth offset h =
    rw (append-nil (encode_bytes auth)) at ((Reads-auth auth h).reads [] offset)

encode_request-length :
    (f : RequestFrame)
    → length f.request_id ≡ 16
    → length (encode_request f)
      ≡ 17 + length (encode_request_payload f.request) + length (encode_bytes f.auth)
encode_request-length f i = omega (
  arith,
  ap (λ bs. length bs) (encode_request-parts f),
  length-append (encode_preamble f.request_id)
      (encode_request_payload f.request ++ encode_bytes f.auth),
  length-append (encode_request_payload f.request) (encode_bytes f.auth),
)

-- A frame whose values are in range is decoded from its encoding, with the bytes that its proof
-- of authenticity covers.
pub decode_request-encode_request :
    (f : RequestFrame)
    → IsRequestFrame f
    → decode_request (encode_request f)
      ≡ ok (record {
        frame = f;
        authenticated_bytes = encode_authenticated_request f.request_id f.request;
      })
unfolding decode_request
decode_request-encode_request f (i, r, a) =
    let payload = encode_request_payload f.request in
    let proof = encode_bytes f.auth in
    let bound = rw (encode_request-parts f) at (encode_request-bound f (i, r, a)) in
    let preamble = decode_preamble_lem f.request_id (payload ++ proof) i bound in
    let start : decode_preamble (encode_request f)
        ≡ ok (f.request_id, record { rest = payload ++ proof; offset = 17 }) =
      ap decode_preamble (encode_request-parts f) ∙ preamble in
    let ended : (17 + length payload + length proof == length (encode_request f)) ≡ true =
      ground (arith, encode_request-length f i) in
    rw
      (
        start,
        (Reads-request_payload f.request r).reads proof 17,
        decode_auth-last f.auth (17 + length payload) a,
        ended,
        take_bytes-authenticated f i,
      )
      refl

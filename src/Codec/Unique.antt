-- ===== src/Codec/Unique.antt =====
-- A request that is accepted is the one encoding of its frame.
use cofferwire.Base.{
  ℕ, ◌≡◌, refl, some, [], ◌∷◌, ◌++◌, ltb, ◌==◌, ◌!=◌, nat_same, Bytes, length, length-append, ok,
  err, arith, ap, sym, ◌∙◌, Each, Bool-cases, inl, inr, Option-cases,
}
use mathlib.Core.List.{append_assoc, append-nil}
use mathlib.Core.Path.{subst}
use cofferwire.Base.BigEndian.{IsByte}
use cofferwire.Cbor.{
  unsupported_version, Decoder, Decoded, unsigned, array, byte_string, split_at, encode_unsigned,
  encode_array, encode_bytes,
}
use cofferwire.Cbor.Canonical.{steps, ok-parts}
use cofferwire.Cbor.Consumed.{Took, argument-Took, split_at-inverse}
use cofferwire.Wire.{
  WireRequest, fetch, delete_queue, Command, create_queue_command, send_command, fetch_command,
  ack_command, delete_queue_command, command_code, command_from, request_command, new_wire_limits,
  new_auth, new_payload, max_message_bytes_limit, max_auth_bytes, max_frame_bytes, WireLimits,
}
use cofferwire.Status.Codes.{command_code-command_from}
use cofferwire.Codec.{
  DecodedRequest, ◌>>=◌, ◌>>◌, give, id, expect_value, decode_command, command_from_u64,
  encode_body, encode_preamble, encode_request, encode_authenticated_request, decode_preamble,
  split_preamble, decode_request_body, decode_request_payload, encode_request_payload, decode_auth,
  take_bytes, finished, decode_request,
}
use cofferwire.Codec.Frames.{take_bytes_lem}
use cofferwire.Codec.Written.{
  Written, Parses, then_Parses, value_Parses, give_Parses, weaken_Parses, last_Parses,
  Written-array, Written-id, Written-unsigned, Written-expect, Written-bytes, Each-back, refused,
  Took-bytes,
}

limits_same :
    (a b : ℕ) (l : WireLimits)
    → new_wire_limits a b ≡ some l
    → (l.max_messages ≡ a) × (l.max_message_bytes ≡ b)
limits_same a b l h = (ground arith, ground arith)

pub new_payload_same : (bytes payload : Bytes) → new_payload bytes ≡ some payload → payload ≡ bytes
new_payload_same bytes payload h = ground arith

new_auth_same : (bytes auth : Bytes) → new_auth bytes ≡ some auth → auth ≡ bytes
new_auth_same bytes auth h = ground arith

-- A body that is accepted for a command is one of that command, and is so written.
abbrev FormsBody : Command → WireRequest → Bytes → Type 0
FormsBody c r y = (request_command r ≡ c) × (y ≡ encode_body r)

two_ids :
    (k : Bytes → Bytes → WireRequest) (c : Command)
    → ((q p : Bytes)
        → FormsBody c (k q p) (encode_array 2 ++ (encode_bytes q ++ (encode_bytes p ++ []))))
    → Parses (array 2 >> (id >>= λ q. id >>= λ p. give (k q p))) (FormsBody c)
two_ids k c form = then_Parses (array 2) _ _ _ (Written-array 2) (λ _.
    then_Parses id _ _ _ Written-id
      (λ q. then_Parses id _ _ _ Written-id (λ p. give_Parses (k q p) _ (form q p))))

body_Parses : (c : Command) → Parses (decode_request_body c) (FormsBody c)
unfolding decode_request_body encode_body
body_Parses create_queue_command = then_Parses (array 5) _ _ _ (Written-array 5) (λ _.
    then_Parses id _ _ _ Written-id (λ q. then_Parses id _ _ _ Written-id (λ s.
      then_Parses id _ _ _ Written-id (λ p. then_Parses unsigned _ _ _ Written-unsigned (λ m.
        then_Parses unsigned _ _ _ Written-unsigned (λ b.
          value_Parses (new_wire_limits m b) _ _ (λ l found. give_Parses _ _ (
            let (first, second) = limits_same m b l found in
            (refl, rw (first, second, append-nil (encode_unsigned b)) refl)))))))))
body_Parses send_command = then_Parses (array 5) _ _ _ (Written-array 5) (λ _.
    then_Parses id _ _ _ Written-id (λ q. then_Parses id _ _ _ Written-id (λ s.
      then_Parses id _ _ _ Written-id (λ m.
        then_Parses (byte_string max_message_bytes_limit) _ _ _
          (Written-bytes max_message_bytes_limit)
          (λ b. value_Parses (new_payload b) _ _ (λ p found.
            then_Parses unsigned _ _ _ Written-unsigned (λ t.
              give_Parses _ _
                (refl, rw (new_payload_same b p found, append-nil (encode_unsigned t)) refl))))))))
body_Parses fetch_command =
    two_ids (λ q p. fetch (record { queue_id = q; recipient = p })) fetch_command
      (λ q p. (refl, rw (append-nil (encode_bytes p)) refl))
body_Parses ack_command = then_Parses (array 3) _ _ _ (Written-array 3) (λ _.
    then_Parses id _ _ _ Written-id (λ q. then_Parses id _ _ _ Written-id (λ p.
      then_Parses id _ _ _ Written-id
        (λ m. give_Parses _ _ (refl, rw (append-nil (encode_bytes m)) refl)))))
body_Parses delete_queue_command =
    two_ids (λ q p. delete_queue (record { queue_id = q; recipient = p })) delete_queue_command
      (λ q p. (refl, rw (append-nil (encode_bytes p)) refl))

pub command_value :
    (value : ℕ) (c : Command) (d d' : Decoder)
    → command_from_u64 value d ≡ ok (c, d')
    → (command_code c ≡ value) × (d ≡ d')
command_value value c d d' h = elim (Bool-cases (ltb 255 value)) [
  | inl large ↦ absurd (let refused = rw large at h in ground (arith, refused))
  | inr small ↦ elim (Option-cases (command_from value)) [
    | inl gone ↦ absurd (let refused = rw (small, gone) at h in ground (arith, refused))
    | inr (c', found) ↦
        let (same, left) = ok-parts c' c d d' (rw (small, found) at h) in
        (command_code-command_from value c (found ∙ ap (λ x. some x) same), left)
  ]
]

pub Written-command : Written decode_command (λ c. encode_unsigned (command_code c))
unfolding decode_command
Written-command = record {
  took = λ d c d' e h.
      let s = steps (unsigned d) command_from_u64 c d' h in
      let (same, left) = command_value s.value c s.decoder d' s.next in
      subst (λ x. Took d x (encode_unsigned (command_code c))) left
        (subst (λ v. Took d s.decoder (encode_unsigned v)) (sym same)
          (argument-Took 0 d s.value s.decoder e s.first));
}

payload_Parses : Parses decode_request_payload (λ r y. y ≡ encode_request_payload r)
unfolding decode_request_payload encode_request_payload
payload_Parses = then_Parses (array 3) _ _ _ (Written-array 3) (λ _.
    then_Parses (expect_value 0) _ _ _ (Written-expect 0) (λ _.
      then_Parses decode_command _ _ _ Written-command (λ c.
        weaken_Parses (decode_request_body c) (FormsBody c) _ (body_Parses c)
          (λ r y f. rw (f.0, f.1) refl))))

auth_Parses : Parses decode_auth (λ a y. y ≡ encode_bytes a)
auth_Parses = then_Parses (byte_string max_auth_bytes) _ _ _ (Written-bytes max_auth_bytes) (λ b.
    last_Parses (new_auth b) _
      (λ a found. rw (new_auth_same b a found, append-nil (encode_bytes b)) refl))

preamble_parts :
    (front back request_id : Bytes) (n : ℕ) (d : Decoder)
    → split_preamble (some (front, back)) n ≡ ok (request_id, d)
    → (front ≡ encode_preamble request_id) × (record { rest = back; offset = 17 } ≡ d)
preamble_parts [] back request_id n d h = absurd (ground (arith, h))
preamble_parts (version ∷ id) back request_id n d h = elim (Bool-cases (version == 0)) [
  | inl reserved ↦ absurd (let refused = rw reserved at h in ground (arith, refused))
  | inr open_version ↦
      let (same, named, left) =
        refused (version != 1) (unsupported_version version id) id request_id
          (record { rest = back; offset = 17 }) d (rw open_version at h) in
      let it : version ≡ 1 = ground (arith, same) in (rw (it, named) refl, left)
]

-- The preamble that is accepted, and the decoder after it.
pub decode_preamble-inverse :
    (bytes request_id : Bytes) (d : Decoder)
    → decode_preamble bytes ≡ ok (request_id, d)
    → (bytes ≡ encode_preamble request_id ++ d.rest)
      × (d.offset ≡ 17)
      × (length (encode_preamble request_id) ≡ 17)
unfolding decode_preamble
decode_preamble-inverse bytes request_id d h =
    elim (Bool-cases (ltb max_frame_bytes (length bytes))) [
      | inl large ↦ absurd (let refused = rw large at h in ground (arith, refused))
      | inr fits ↦ elim (Option-cases (split_at 17 bytes)) [
        | inl short ↦ absurd (let refused = rw (fits, short) at h in ground (arith, refused))
        | inr ((front, back), found) ↦
            let (cut, measure) = split_at-inverse 17 bytes front back found in
            let (named, left) =
              preamble_parts front back request_id (length bytes) d (rw (fits, found) at h) in
            (
              cut
                  ∙ (ap (λ x. x ++ back) named
                      ∙ ap (λ (x : Decoder). encode_preamble request_id ++ x.rest) left),
              ap (λ (x : Decoder). x.offset) (sym left),
              ap (λ x. length x) (sym named) ∙ measure,
            )
      ]
    ]

-- A decode that ends has passed all bytes.
pub finished-inverse :
    {A : Type 0} (bytes : Bytes) (r : Decoded A) (x : A)
    → finished bytes r ≡ ok x
    → (d : Decoder) × (r ≡ ok (x, d)) × (d.offset ≡ length bytes)
finished-inverse bytes (err e) x h = absurd (ground (arith, h))
finished-inverse bytes (ok (a, d)) x h = elim (Bool-cases (d.offset == length bytes)) [
  | inl ended ↦
      let same : a ≡ x = let made = rw ended at h in ground (arith, made) in
      (d, rw same refl, ground (arith, ended))
  | inr more ↦ absurd (let refused = rw more at h in ground (arith, refused))
]

pub rest_empty : (bytes : Bytes) → length bytes ≡ 0 → bytes ≡ []
rest_empty [] h = refl
rest_empty (b ∷ bytes) h = absurd (omega arith)

-- A frame from its three parts, when nothing is left after them.
assemble :
    (bytes pre payload proof : Bytes) (one two three : Decoder)
    → bytes ≡ pre ++ one.rest
    → length pre ≡ one.offset
    → Took one two payload
    → Took two three proof
    → three.offset ≡ length bytes
    → (pre ++ payload ++ proof ≡ bytes) × (take_bytes two.offset bytes ≡ pre ++ payload)
assemble bytes pre payload proof one two three start place p q ended =
    let all_read : three.rest ≡ [] =
      rest_empty three.rest
        (omega (arith, ap (λ x. length x) start, length-append pre one.rest, p.even, q.even)) in
    let end : two.rest ≡ proof = q.whole ∙ (ap (λ x. proof ++ x) all_read ∙ append-nil proof) in
    let whole : pre ++ payload ++ proof ≡ bytes =
      append_assoc pre payload proof
      ∙ (ap (λ x. pre ++ (payload ++ x)) (sym end)
          ∙ (ap (λ x. pre ++ x) (sym p.whole) ∙ sym start)) in
    let measure : length (pre ++ payload) ≡ two.offset = omega (
      arith,
      length-append pre payload,
      p.even,
      ap (λ x. length x) p.whole,
      length-append payload two.rest,
      place,
    ) in
    (
      whole,
      ap (take_bytes two.offset) (sym whole)
          ∙ take_bytes_lem (pre ++ payload) proof two.offset measure,
    )

-- Of bytes: a request that is accepted is the encoding of the frame that is made of it, so that a
-- frame has no second encoding, and the bytes that its proof of authenticity covers are those
-- before the proof.
pub decode_request_unique :
    (bytes : Bytes) (x : DecodedRequest)
    → Each IsByte bytes
    → decode_request bytes ≡ ok x
    → (encode_request x.frame ≡ bytes)
      × (x.authenticated_bytes ≡ encode_authenticated_request x.frame.request_id x.frame.request)
unfolding decode_request encode_request
decode_request_unique bytes x e h =
    let (last, made, ended) = finished-inverse bytes _ x h in
    let one = steps (decode_preamble bytes) _ x last made in
    let two = steps (decode_request_payload one.decoder) _ x last one.next in
    let three = steps (decode_auth two.decoder) _ x last two.next in
    let (start, place, measure) = decode_preamble-inverse bytes one.value one.decoder one.first in
    let bytes_left =
      Each-back (encode_preamble one.value) one.decoder.rest (subst (λ b. Each IsByte b) start e) in
    let payload = payload_Parses.formed one.decoder two.value two.decoder bytes_left two.first in
    let proof =
      auth_Parses.formed two.decoder three.value three.decoder
        (Took-bytes one.decoder two.decoder payload.bytes payload.took bytes_left) three.first in
    let (same, left) =
      ok-parts
        (record {
          frame = record { request_id = one.value; request = two.value; auth = three.value };
          authenticated_bytes = take_bytes two.decoder.offset bytes;
        })
        x three.decoder last three.next in
    let ended' : three.decoder.offset ≡ length bytes =
      ap (λ (d : Decoder). d.offset) left ∙ ended in
    let (whole, covered) =
      assemble bytes (encode_preamble one.value) payload.bytes proof.bytes one.decoder two.decoder
        three.decoder start (measure ∙ sym place) payload.took proof.took ended' in
    rw (← same) (
      ap (λ z. encode_preamble one.value ++ z ++ encode_bytes three.value) (sym payload.form)
          ∙ (ap (λ z. encode_preamble one.value ++ payload.bytes ++ z) (sym proof.form) ∙ whole),
      covered ∙ ap (λ z. encode_preamble one.value ++ z) payload.form,
    )

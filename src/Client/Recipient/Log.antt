-- ===== src/Client/Recipient/Log.antt =====
-- What a recipient asks of its surroundings in a poll, and in which order.
use cofferwire.Base.{
  ◌≡◌, none, some, List, [], ◌∷◌, ◌++◌, Bytes, Result, ok, err, Result-cases, inl, inr,
}
use cofferwire.Types.{RequestId, MessageId}
use cofferwire.Wire.{
  create_queue_response, send_response, delete_queue_response, fetch_command, ack_command,
  WireDelivery, fetch_response, ack_response,
}
use cofferwire.Status.{Response, success, failure}
use cofferwire.Crypto.Suite.{Primitives}
use cofferwire.Client.{
  TransportError, StoreError, store_error, ClientError, CommitOutcome, Outside, checked_response,
  from_transport, bound, give,
}
use cofferwire.Client.Recipient.{
  Recipient, PollOutcome, empty, fetched, polled, acknowledged, fetch_frame, ack_frame, opened,
  poll, poll_delivery, poll_fetched,
}

-- A call of the surroundings and its answer.
pub data Event : Type 0 where
  exchanged : Bytes → Result TransportError Bytes → Event
  committed : MessageId → Bytes → Result StoreError CommitOutcome → Event

-- The surroundings, with a log of the calls.
abbrev pub logged : {W : Type 0} → Outside W → Outside (W × List Event)
logged o = record {
  exchange = λ bytes (w, log).
      let (answer, w') = o.exchange bytes w in (answer, (w', log ++ exchanged bytes answer ∷ []));
  commit = λ id plaintext (w, log).
      let (answer, w') = o.commit id plaintext w in
      (answer, (w', log ++ committed id plaintext answer ∷ []));
  next_request_id = λ (w, log). let (id, w') = o.next_request_id w in (id, (w', log));
}

module _ (p : Primitives) (r : Recipient p) where
  -- The answer to the fetch is a delivery to this recipient, which opens as a plaintext.
  pub record Arrived (i : RequestId) (answer : Bytes) (d : WireDelivery) (plaintext : Bytes)
      : Type 0 where
    pub response : Response
    pub checked : checked_response answer i fetch_command ≡ ok response
    pub delivered : fetched response ≡ ok (some d)
    pub plain : opened p r d ≡ ok plaintext

  -- A poll by its log and its result.
  pub data Polled : List Event → Result ClientError PollOutcome → Type 0 where
    -- Only the fetch was sent.
    unfetched :
        (i : RequestId) (answer : Result TransportError Bytes) (x : ClientError)
        → Polled (exchanged (fetch_frame p r i) answer ∷ []) (err x)
    idle :
        (i : RequestId) (answer : Bytes) (response : Response)
        → checked_response answer i fetch_command ≡ ok response
        → fetched response ≡ ok none
        → Polled (exchanged (fetch_frame p r i) (ok answer) ∷ []) (ok empty)
    -- The store failed, and no acknowledgement was sent.
    uncommitted :
        (i : RequestId) (answer : Bytes) (d : WireDelivery) (plaintext : Bytes) (x : ClientError)
        → Arrived i answer d plaintext
        → Polled
            (exchanged (fetch_frame p r i) (ok answer)
              ∷ committed d.message_id plaintext (err store_error)
              ∷ [])
            (err x)
    -- The acknowledgement was sent after the commit, and not confirmed.
    unconfirmed :
        (i j : RequestId) (answer : Bytes) (d : WireDelivery) (plaintext : Bytes)
        (o : CommitOutcome) (confirmation : Result TransportError Bytes) (x : ClientError)
        → Arrived i answer d plaintext
        → Polled
            (exchanged (fetch_frame p r i) (ok answer)
              ∷ committed d.message_id plaintext (ok o)
              ∷ exchanged (ack_frame p r j d.message_id) confirmation
              ∷ [])
            (err x)
    confirmed :
        (i j : RequestId) (answer : Bytes) (d : WireDelivery) (plaintext : Bytes)
        (o : CommitOutcome) (confirmation : Bytes)
        → Arrived i answer d plaintext
        → checked_response confirmation j ack_command ≡ ok (success ack_response)
        → Polled
            (exchanged (fetch_frame p r i) (ok answer)
              ∷ committed d.message_id plaintext (ok o)
              ∷ exchanged (ack_frame p r j d.message_id) (ok confirmation)
              ∷ [])
            (ok (polled d.message_id o))

  module _ {W : Type 0} (o : Outside W) where
    poll_acknowledged :
        (i j : RequestId) (answer : Bytes) (d : WireDelivery) (plaintext : Bytes)
        (c : CommitOutcome) (confirmation : Bytes) (x : Response)
        → Arrived i answer d plaintext
        → checked_response confirmation j ack_command ≡ ok x
        → Polled
            (exchanged (fetch_frame p r i) (ok answer)
              ∷ committed d.message_id plaintext (ok c)
              ∷ exchanged (ack_frame p r j d.message_id) (ok confirmation)
              ∷ [])
            (acknowledged d.message_id c x)
    poll_acknowledged i j answer d plaintext c confirmation (success ack_response) a h =
        confirmed i j answer d plaintext c confirmation a h
    poll_acknowledged i j answer d plaintext c confirmation (failure e) a h =
        unconfirmed i j answer d plaintext c (ok confirmation) _ a
    poll_acknowledged i j answer d plaintext c confirmation (success (create_queue_response u)) a
          h =
        unconfirmed i j answer d plaintext c (ok confirmation) _ a
    poll_acknowledged i j answer d plaintext c confirmation (success (send_response u)) a h =
        unconfirmed i j answer d plaintext c (ok confirmation) _ a
    poll_acknowledged i j answer d plaintext c confirmation (success (fetch_response u)) a h =
        unconfirmed i j answer d plaintext c (ok confirmation) _ a
    poll_acknowledged i j answer d plaintext c confirmation (success delete_queue_response) a h =
        unconfirmed i j answer d plaintext c (ok confirmation) _ a

    -- The end of a poll, from the response to the acknowledgement.
    poll_confirmed :
        (i j : RequestId) (answer : Bytes) (d : WireDelivery) (plaintext : Bytes)
        (c : CommitOutcome) (confirmation : Result TransportError Bytes) (w : W)
        → Arrived i answer d plaintext
        → let (result, (_, log)) =
            bound {W = W × List Event}
              (
                from_transport confirmation,
                (
                  w,
                  exchanged (fetch_frame p r i) (ok answer)
                      ∷ committed d.message_id plaintext (ok c)
                      ∷ exchanged (ack_frame p r j d.message_id) confirmation
                      ∷ [],
                ),
              )
              (λ bytes. λ v.
                bound
                  (checked_response bytes j ack_command, v)
                  (λ x. give (acknowledged d.message_id c x))) in
          Polled log result
    poll_confirmed i j answer d plaintext c (err x) w arrived =
        unconfirmed i j answer d plaintext c (err x) _ arrived
    poll_confirmed i j answer d plaintext c (ok bytes) w arrived =
        elim (Result-cases (checked_response bytes j ack_command)) [
          | inl (x, h) ↦ rw h (poll_acknowledged i j answer d plaintext c bytes x arrived h)
          | inr (x, h) ↦ rw h (unconfirmed i j answer d plaintext c (ok bytes) x arrived)
        ]

    poll_delivered :
        (i : RequestId) (answer : Bytes) (response : Response) (d : WireDelivery) (w : W)
        → checked_response answer i fetch_command ≡ ok response
        → fetched response ≡ ok (some d)
        → let (result, (_, log)) =
            poll_delivery p r (logged o) d (w, exchanged (fetch_frame p r i) (ok answer) ∷ []) in
          Polled log result
    unfolding poll_delivery
    poll_delivered i answer response d w checked delivered = elim (Result-cases (opened p r d)) [
      | inr (x, h) ↦ rw h (unfetched i (ok answer) x)
      | inl (plaintext, h) ↦
          let arrived : Arrived i answer d plaintext = record {
            response = response;
            checked = checked;
            delivered = delivered;
            plain = h;
          } in
          elim (Result-cases (o.commit d.message_id plaintext w).0) [
            | inr (store_error, failed) ↦
                rw (h, failed) (uncommitted i answer d plaintext _ arrived)
            | inl (c, done) ↦
                let (j, w') = o.next_request_id (o.commit d.message_id plaintext w).1 in
                rw (h, done)
                  (poll_confirmed i j answer d plaintext c
                    (o.exchange (ack_frame p r j d.message_id) w').0
                    (o.exchange (ack_frame p r j d.message_id) w').1 arrived)
          ]
    ]

    poll_told :
        (i : RequestId) (answer : Bytes) (response : Response) (w : W)
        → checked_response answer i fetch_command ≡ ok response
        → let (result, (_, log)) =
            bound {W = W × List Event}
              (fetched response, (w, exchanged (fetch_frame p r i) (ok answer) ∷ []))
              (poll_fetched p r (logged o)) in
          Polled log result
    poll_told i answer response w checked = elim (Result-cases (fetched response)) [
      | inr (x, h) ↦ rw h (unfetched i (ok answer) x)
      | inl (none, h) ↦ rw h (idle i answer response checked h)
      | inl (some d, h) ↦ rw h (poll_delivered i answer response d w checked h)
    ]

    poll_answered :
        (i : RequestId) (answer : Result TransportError Bytes) (w : W)
        → let (result, (_, log)) =
            bound {W = W × List Event}
              (from_transport answer, (w, exchanged (fetch_frame p r i) answer ∷ []))
              (λ bytes. λ v.
                bound
                  (checked_response bytes i fetch_command, v)
                  (λ response. λ u. bound (fetched response, u) (poll_fetched p r (logged o)))) in
          Polled log result
    poll_answered i (err x) w = unfetched i (err x) _
    poll_answered i (ok answer) w = elim (Result-cases (checked_response answer i fetch_command)) [
      | inr (x, h) ↦ rw h (unfetched i (ok answer) x)
      | inl (response, h) ↦ rw h (poll_told i answer response w h)
    ]

    -- Whatever the transport, the store and the source of identifiers do, a poll sends one fetch;
    -- it commits only a plaintext that the delivery in the checked response opens as; it
    -- acknowledges only that delivery's message, and only after the store has committed it; and it
    -- succeeds only with no message, or after the acknowledgement was confirmed, with the outcome
    -- of the commit.
    pub poll-Polled :
        (w : W) → let (result, (_, log)) = poll p r (logged o) (w, []) in Polled log result
    unfolding poll
    poll-Polled w =
        let (i, w') = o.next_request_id w in
        let (answer, w'') = o.exchange (fetch_frame p r i) w' in poll_answered i answer w''

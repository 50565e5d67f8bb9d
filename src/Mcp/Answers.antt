-- ===== src/Mcp/Answers.antt =====
-- Which messages are answered, and with which identifiers (mcp-rs/src/protocol.rs).
use mcproc.Prelude.{
  ◌≡◌, refl, sym, ap, ◌∙◌, ◌↔◌, Bool-cases, inl, inr, List, [], ◌∷◌, ◌++◌, Option, none, some,
  codes, text_eq, arith,
}
use mcproc.Mcp.Types.{
  Json, JsonRpcId, null, JsonRpcRequest, JsonRpcMessage, request, response, notification, batch,
  Messages, nil, cons, Result, ok, err, from_str,
}
use mcproc.Mcp.Protocol.{
  Protocol, Sender, queued, invalid_request_response, set_notification_sender,
}
use mcproc.Mcp.Messages.{
  response_of, handle_request_with_sender, batch_of, push_response, sender_or_queue, dispatch,
  handle_message, handle_all, handle_message_realtime, handle_all_realtime,
}

module _ {V : Type 0} where
  -- The identifiers of the requests in a message, in order; an empty batch counts as one with none.
  unfoldable mutual
    pub requested : JsonRpcMessage V → List JsonRpcId
    requested (request req) = req.id ∷ []
    requested (notification notif) = []
    requested (response r) = []
    requested (batch nil) = null ∷ []
    requested (batch (cons m ms)) = requested m ++ requested_all ms

    pub requested_all : Messages V → List JsonRpcId
    requested_all nil = []
    requested_all (cons m ms) = requested m ++ requested_all ms

  -- The identifiers of the responses in a message, in order.
  unfoldable mutual
    pub answered : JsonRpcMessage V → List JsonRpcId
    answered (response r) = r.id ∷ []
    answered (request req) = []
    answered (notification notif) = []
    answered (batch ms) = answered_all ms

    pub answered_all : Messages V → List JsonRpcId
    answered_all nil = []
    answered_all (cons m ms) = answered m ++ answered_all ms

  unfoldable pub answered_by : Option (JsonRpcMessage V) → List JsonRpcId
  unfolding answered
  answered_by none = []
  answered_by (some m) = answered m

  answered-batch_of : (rs : Messages V) → answered_by (batch_of rs) ≡ answered_all rs
  unfolding batch_of answered_by
  answered-batch_of nil = refl
  answered-batch_of (cons r rs) = refl

  answered-push_response :
      (r : Option (JsonRpcMessage V)) (rs : Messages V)
      → answered_all (push_response r rs) ≡ answered_by r ++ answered_all rs
  unfolding push_response answered_by
  answered-push_response none rs = refl
  answered-push_response (some r) rs = refl

  response_of_id : (id : JsonRpcId) (r : Result V) → (response_of id r).id ≡ id
  unfolding response_of
  response_of_id id (ok v) = refl
  response_of_id id (err e) = refl

module _ {V S : Type 0} (json : Json V) where
  handle_request_id :
      (req : JsonRpcRequest V) (sender : Sender) (p : Protocol V S)
      → (handle_request_with_sender json req sender p).0.id ≡ req.id
  unfolding handle_request_with_sender invalid_request_response
  handle_request_id req sender p = elim (Bool-cases (text_eq req.jsonrpc (codes "2.0"))) [
    | inl e ↦ rw e (response_of_id req.id (dispatch json (from_str req.method) req sender p).0)
    | inr e ↦ rw e
  ]

  mutual
    unfolding handle_message requested answered answered_by

    message_answered :
        (m : JsonRpcMessage V) (p : Protocol V S)
        → answered_by (handle_message json m p).0 ≡ requested m
    message_answered (request req) p =
        ap (λ i. i ∷ []) (handle_request_id req queued (set_notification_sender queued p))
    message_answered (notification notif) p = refl
    message_answered (response r) p = refl
    message_answered (batch nil) p = refl
    message_answered (batch (cons m ms)) p =
        answered-batch_of (handle_all json (cons m ms) (set_notification_sender queued p)).0
        ∙ handle_all_answers (cons m ms) (set_notification_sender queued p)

    handle_all_answers :
        (ms : Messages V) (p : Protocol V S)
        → answered_all (handle_all json ms p).0 ≡ requested_all ms
    handle_all_answers nil p = refl
    handle_all_answers (cons m ms) p =
        answered-push_response (handle_message json m p).0
          (handle_all json ms (handle_message json m p).2).0
        ∙ rw (message_answered m p, handle_all_answers ms (handle_message json m p).2)

  mutual
    unfolding handle_message_realtime requested answered answered_by

    realtime_answered :
        (m : JsonRpcMessage V) (p : Protocol V S)
        → answered_by (handle_message_realtime json m p).0 ≡ requested m
    realtime_answered (request req) p =
        ap (λ i. i ∷ []) (handle_request_id req (sender_or_queue p.notification_sender) p)
    realtime_answered (notification notif) p = refl
    realtime_answered (response r) p = refl
    realtime_answered (batch nil) p = refl
    realtime_answered (batch (cons m ms)) p =
        answered-batch_of (handle_all_realtime json (cons m ms) p).0
        ∙ realtime_all_answers (cons m ms) p

    realtime_all_answers :
        (ms : Messages V) (p : Protocol V S)
        → answered_all (handle_all_realtime json ms p).0 ≡ requested_all ms
    realtime_all_answers nil p = refl
    realtime_all_answers (cons m ms) p =
        answered-push_response (handle_message_realtime json m p).0
          (handle_all_realtime json ms (handle_message_realtime json m p).1).0
        ∙ rw (realtime_answered m p, realtime_all_answers ms (handle_message_realtime json m p).1)

both_empty : (xs ys : List JsonRpcId) → xs ++ ys ≡ [] → (xs ≡ []) × (ys ≡ [])
both_empty [] ys h = (refl, h)
both_empty (x ∷ xs) ys h = ground arith

module _ {V S : Type 0} (json : Json V) where
  mutual
    unfolding handle_message requested batch_of push_response

    handle_message_quiet :
        (m : JsonRpcMessage V) (p : Protocol V S)
        → requested m ≡ []
        → (handle_message json m p).0 ≡ none
    handle_message_quiet (request req) p h = ground arith
    handle_message_quiet (notification notif) p h = refl
    handle_message_quiet (response r) p h = refl
    handle_message_quiet (batch nil) p h = ground arith
    handle_message_quiet (batch (cons m ms)) p h =
        ap batch_of (handle_all_quiet (cons m ms) (set_notification_sender queued p) h)

    handle_all_quiet :
        (ms : Messages V) (p : Protocol V S)
        → requested_all ms ≡ []
        → (handle_all json ms p).0 ≡ nil
    handle_all_quiet nil p h = refl
    handle_all_quiet (cons m ms) p h =
        let (one, others) = both_empty (requested m) (requested_all ms) h in
        rw (handle_message_quiet m p one, handle_all_quiet ms (handle_message json m p).2 others)

  -- A message has no response exactly if it holds no request, and no empty batch.
  pub handle_message_silent :
      (m : JsonRpcMessage V) (p : Protocol V S)
      → ((handle_message json m p).0 ≡ none) ↔ (requested m ≡ [])
  unfolding answered_by
  handle_message_silent m p =
      (λ h. sym (message_answered json m p) ∙ ap answered_by h, handle_message_quiet m p)

  -- The identifiers of the responses that `handle_message` gives are those of the requests in the message,
  -- in order and one for one, also in batches inside batches; an empty batch counts as a request with no
  -- identifier, and notifications and responses have none.
  pub handle_message_answers :
      (m : JsonRpcMessage V) (p : Protocol V S)
      → answered_by (handle_message json m p).0 ≡ requested m
  handle_message_answers m p = message_answered json m p

  -- The identifiers of the responses that `handle_message_realtime` gives are those of the requests in
  -- the message, counted in the same way.
  pub realtime_answers :
      (m : JsonRpcMessage V) (p : Protocol V S)
      → answered_by (handle_message_realtime json m p).0 ≡ requested m
  realtime_answers m p = realtime_answered json m p

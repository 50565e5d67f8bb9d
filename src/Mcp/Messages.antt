-- ===== src/Mcp/Messages.antt =====
-- How `Protocol` answers a request and a message (`handle_request_with_sender`, `handle_message` and
-- `handle_message_realtime` of mcp-rs/src/protocol.rs).
use mcproc.Prelude.{List, [], Option, none, some, if◌then◌else◌, codes, text_eq}
use mcproc.Mcp.Types.{
  Json, JsonRpcId, null, JsonRpcRequest, JsonRpcNotification, JsonRpcResponse, JsonRpcMessage,
  request, response, notification, batch, Messages, nil, cons, McpMethod, initialize, shutdown,
  tools_list, tools_call, custom, from_str, Result, ok, err,
}
use mcproc.Mcp.Protocol.{
  Protocol, Sender, queued, Handled, pure, invalid_request_response, error_to_json_rpc,
  set_notification_sender, handle_initialize, handle_tools_list, handle_tools_call, handle_custom,
}

-- The sender that is set, or else a new queue.
unfoldable pub sender_or_queue : Option Sender → Sender
sender_or_queue none = queued
sender_or_queue (some sender) = sender

module _ {V : Type 0} where
  unfoldable pub response_of : JsonRpcId → Result V → JsonRpcResponse V
  unfolding error_to_json_rpc
  response_of id (ok result) = record {
    jsonrpc = codes "2.0";
    result = some result;
    error = none;
    id = id;
  }
  response_of id (err error) = record {
    jsonrpc = codes "2.0";
    result = none;
    error = some (error_to_json_rpc error);
    id = id;
  }

  -- `responses` becomes a batch, unless there is none.
  unfoldable pub batch_of : Messages V → Option (JsonRpcMessage V)
  batch_of nil = none
  batch_of (cons r rs) = some (batch (cons r rs))

  unfoldable pub push_response : Option (JsonRpcMessage V) → Messages V → Messages V
  push_response none rs = rs
  push_response (some r) rs = cons r rs

module _ {V S : Type 0} (json : Json V) where
  unfoldable pub dispatch : McpMethod → JsonRpcRequest V → Sender → Protocol V S → Handled V S
  unfolding pure handle_initialize handle_tools_list handle_tools_call handle_custom
  dispatch initialize req sender p = pure p (handle_initialize json p)
  dispatch tools_list req sender p = pure p (handle_tools_list json p)
  dispatch tools_call req sender p = handle_tools_call json req.params req.id sender p
  dispatch shutdown req sender p = pure p (ok (json.object []))
  dispatch (custom method) req sender p = handle_custom json method req.params req.id sender p

  unfoldable pub handle_request_with_sender :
      JsonRpcRequest V
      → Sender
      → Protocol V S
      → JsonRpcResponse V × List (JsonRpcNotification V) × Protocol V S
  unfolding dispatch response_of from_str invalid_request_response
  handle_request_with_sender req sender p =
      if text_eq req.jsonrpc (codes "2.0")
      then (let (result, sent, p') = dispatch (from_str req.method) req sender p in
          (response_of req.id result, sent, p'))
      else (invalid_request_response req.id, [], p)

  -- A queued sender is made for each message, and stays the sender of the server behind it. The
  -- notifications that the messages of a batch queue are dropped.
  unfoldable mutual
    unfolding set_notification_sender handle_request_with_sender push_response batch_of
        invalid_request_response

    pub handle_message :
        JsonRpcMessage V
        → Protocol V S
        → Option (JsonRpcMessage V) × List (JsonRpcNotification V) × Protocol V S
    handle_message (request req) p =
        let (r, sent, p') =
          handle_request_with_sender req queued (set_notification_sender queued p) in
        (some (response r), sent, p')
    handle_message (notification notif) p = (none, [], set_notification_sender queued p)
    handle_message (response r) p = (none, [], set_notification_sender queued p)
    handle_message (batch nil) p =
        (some (response (invalid_request_response null)), [], set_notification_sender queued p)
    handle_message (batch (cons m ms)) p =
        let (rs, p') = handle_all (cons m ms) (set_notification_sender queued p) in
        (batch_of rs, [], p')

    pub handle_all : Messages V → Protocol V S → Messages V × Protocol V S
    handle_all nil p = (nil, p)
    handle_all (cons m ms) p =
        let (r, sent, p') = handle_message m p in
        let (rs, p'') = handle_all ms p' in (push_response r rs, p'')

  -- Here the queue is a fallback, which nobody reads.
  unfoldable mutual
    unfolding handle_request_with_sender push_response batch_of invalid_request_response
        sender_or_queue

    pub handle_message_realtime :
        JsonRpcMessage V → Protocol V S → Option (JsonRpcMessage V) × Protocol V S
    handle_message_realtime (request req) p =
        let (r, sent, p') =
          handle_request_with_sender req (sender_or_queue p.notification_sender) p in
        (some (response r), p')
    handle_message_realtime (notification notif) p = (none, p)
    handle_message_realtime (response r) p = (none, p)
    handle_message_realtime (batch nil) p = (some (response (invalid_request_response null)), p)
    handle_message_realtime (batch (cons m ms)) p =
        let (rs, p') = handle_all_realtime (cons m ms) p in (batch_of rs, p')

    pub handle_all_realtime : Messages V → Protocol V S → Messages V × Protocol V S
    handle_all_realtime nil p = (nil, p)
    handle_all_realtime (cons m ms) p =
        let (r, p') = handle_message_realtime m p in
        let (rs, p'') = handle_all_realtime ms p' in (push_response r rs, p'')

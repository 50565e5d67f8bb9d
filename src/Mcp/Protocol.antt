-- ===== src/Mcp/Protocol.antt =====
-- `Protocol` of mcp-rs/src/protocol.rs: how a message is answered. Handlers are functions of the program
-- that registers them; here one gets the state `S` of that program and gives the next, with the
-- notifications that it sends. A call is carried through before the next.
use mcproc.Prelude.{
  ℕ, Bool, true, false, List, [], ◌∷◌, ◌++◌, map, Option, none, some, Text, codes, Dict, lookup,
  insert,
}
use mcproc.Mcp.Types.{
  Json, JsonRpcId, JsonRpcNotification, JsonRpcError, JsonRpcResponse, ToolInfo, tool_info_value,
  Error, method_not_found, invalid_params, tool_not_found, internal, to_string,
  invalid_request_code, method_not_found_code, invalid_params_code, internal_error_code,
  server_error_code, Result, ok, err,
}

pub record ToolContext : Type 0 where
  pub progress_token : Option Text
  pub request_id : Option JsonRpcId

-- What a handler's call comes to.
pub record Outcome (V S : Type 0) : Type 0 where
  pub result : Result V
  pub sent : List (JsonRpcNotification V)
  pub state : S

pub record ToolHandler (V S : Type 0) : Type 0 where
  pub tool_info : ToolInfo V
  pub handle : Option V → ToolContext → S → Outcome V S

abbrev pub McpHandler : Type 0 → Type 0 → Type 0
McpHandler V S = Option V → S → Result V × S

-- A sender of notifications: one that the server was given, or the queue of a request.
pub data Sender : Type 0 where
  given : ℕ → Sender
  queued : Sender

-- `Protocol`, with the state of the handlers and what the given senders were handed.
pub record Protocol (V S : Type 0) : Type 0 where
  pub server_name : Text
  pub server_version : Text
  pub tools : Dict (ToolHandler V S)
  pub custom_handlers : Dict (McpHandler V S)
  pub notification_sender : Option Sender
  pub delivered : List (ℕ × JsonRpcNotification V)
  pub state : S

-- A result, the notifications that were queued, and the server.
abbrev pub Handled : Type 0 → Type 0 → Type 0
Handled V S = Result V × List (JsonRpcNotification V) × Protocol V S

unfoldable pub invalid_request_response : {V : Type 0} → JsonRpcId → JsonRpcResponse V
invalid_request_response id = record {
  jsonrpc = codes "2.0";
  result = none;
  error = some (record { code = invalid_request_code; message = codes "Invalid Request" });
  id = id;
}

unfoldable pub error_to_json_rpc : Error → JsonRpcError
unfolding to_string
error_to_json_rpc (method_not_found msg) = record { code = method_not_found_code; message = msg }
error_to_json_rpc (invalid_params msg) = record { code = invalid_params_code; message = msg }
error_to_json_rpc (tool_not_found name) = record {
  code = invalid_params_code;
  message = to_string (tool_not_found name);
}
error_to_json_rpc (internal msg) = record { code = internal_error_code; message = msg }
error_to_json_rpc error = record { code = server_error_code; message = to_string error }

module _ {V S : Type 0} where
  unfoldable pub set_notification_sender : Sender → Protocol V S → Protocol V S
  set_notification_sender sender p = record p { notification_sender = some sender }

  unfoldable pub register_tool : ToolHandler V S → Protocol V S → Protocol V S
  register_tool handler p = record p { tools = insert handler.tool_info.name handler p.tools }

  unfoldable pub register_custom_handler : Text → McpHandler V S → Protocol V S → Protocol V S
  register_custom_handler method handler p = record p {
    custom_handlers = insert method handler p.custom_handlers;
  }

  -- A value that leaves the server as it is.
  unfoldable pub pure : Protocol V S → Result V → Handled V S
  pure p r = (r, [], p)

  -- The notifications of a handler go to the sender of its context: a queue keeps them for the caller.
  unfoldable pub deliver : Sender → Protocol V S → Outcome V S → Handled V S
  deliver queued p o = (o.result, o.sent, record p { state = o.state })
  deliver (given n) p o = (
    o.result,
    [],
    record p { state = o.state; delivered = p.delivered ++ map (λ m. (n, m)) o.sent },
  )

module _ {V : Type 0} (json : Json V) where
  unfoldable pub and_get : Text → Option V → Option V
  and_get key none = none
  and_get key (some v) = json.get key v

  unfoldable pub and_str : Option V → Option Text
  and_str none = none
  and_str (some v) = json.as_str v

  -- `params.get("_meta").and_then(..).and_then(|v| v.as_str())`
  unfoldable pub progress_token : Option V → Option Text
  unfolding and_get and_str
  progress_token params = and_str (and_get (codes "progressToken") (and_get (codes "_meta") params))

  -- The answer to `tools/call`, in the format of MCP; an error of the tool is no error of the protocol.
  unfoldable pub tool_response : Text → Bool → V
  tool_response s is_error = json.object (
      (
        codes "content",
        json.array (
            json.object
              ((codes "type", json.text (codes "text")) ∷ (codes "text", json.text s) ∷ [])
            ∷ []),
      )
      ∷ (codes "isError", json.bool is_error)
      ∷ [])

  unfoldable pub wrap_result : Result V → Result V
  unfolding tool_response to_string
  wrap_result (ok result) = ok (tool_response (json.pretty result) false)
  wrap_result (err e) = ok (tool_response (codes "Error: " ++ to_string e) true)

module _ {V S : Type 0} (json : Json V) where
  unfoldable pub handle_initialize : Protocol V S → Result V
  handle_initialize p = ok (
      json.object (
        (codes "protocolVersion", json.text (codes "2025-03-26"))
        ∷ (
          codes "capabilities",
          json.object
              ((codes "tools", json.object ((codes "listChanged", json.bool false) ∷ [])) ∷ []),
        )
        ∷ (
          codes "serverInfo",
          json.object (
              (codes "name", json.text p.server_name)
              ∷ (codes "version", json.text p.server_version)
              ∷ []),
        )
        ∷ []))

  unfoldable pub handle_tools_list : Protocol V S → Result V
  unfolding tool_info_value
  handle_tools_list p = ok (
      json.object (
        (
          codes "tools",
          json.array
              (map (λ (e : Text × ToolHandler V S). tool_info_value json e.1.tool_info) p.tools),
        )
        ∷ []))

  unfoldable pub call_tool :
      Option (ToolHandler V S) → Text → V → JsonRpcId → Sender → Protocol V S → Handled V S
  unfolding pure deliver wrap_result progress_token
  call_tool none tool_name params id sender p = pure p (err (tool_not_found tool_name))
  call_tool (some handler) tool_name params id sender p =
      let o =
        handler.handle (json.get (codes "arguments") params)
          (record { progress_token = progress_token json (some params); request_id = some id })
          p.state in
      deliver sender p (record o { result = wrap_result json o.result })

  unfoldable pub call_named : Option Text → V → JsonRpcId → Sender → Protocol V S → Handled V S
  unfolding pure call_tool
  call_named none params id sender p = pure p (err (invalid_params (codes "Missing tool name")))
  call_named (some tool_name) params id sender p =
      call_tool (lookup tool_name p.tools) tool_name params id sender p

  unfoldable pub handle_tools_call : Option V → JsonRpcId → Sender → Protocol V S → Handled V S
  unfolding pure call_named and_str
  handle_tools_call none id sender p = pure p (err (invalid_params (codes "Missing parameters")))
  handle_tools_call (some params) id sender p =
      call_named (and_str json (json.get (codes "name") params)) params id sender p

  -- A custom handler has no context, so it sends nothing.
  unfoldable pub call_custom :
      Option (McpHandler V S) → Text → Option V → Protocol V S → Handled V S
  unfolding pure
  call_custom none method params p =
      pure p (err (method_not_found (codes "Method not found: " ++ method)))
  call_custom (some handler) method params p =
      let (result, state) = handler params p.state in (result, [], record p { state = state })

  unfoldable pub handle_custom : Text → Option V → JsonRpcId → Sender → Protocol V S → Handled V S
  unfolding deliver call_custom progress_token
  handle_custom method params id sender p = elim (lookup method p.tools) [
    | some handler ↦ deliver sender p (
        handler.handle params
          (record { progress_token = progress_token json params; request_id = some id }) p.state)
    | none ↦ call_custom (lookup method p.custom_handlers) method params p
  ]

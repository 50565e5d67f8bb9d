-- ===== src/Examples/Mcp.antt =====
-- Messages to the MCP server (mcp-rs/src/protocol.rs), with values that are texts.
use mcproc.Prelude.{◌≡◌, ◌↔◌, refl, [], ◌∷◌, none, some, codes, pos, Text, text_eq}
use mcproc.Mcp.Types.{
  Json, number, JsonRpcRequest, JsonRpcMessage, request, notification, batch, nil, cons, err,
  internal, from_str,
}
use mcproc.Mcp.Protocol.{Protocol, ToolHandler, queued}
use mcproc.Mcp.Messages.{handle_message, handle_message_realtime, handle_request_with_sender}
use mcproc.Mcp.Answers.{
  answered_by, requested, handle_message_answers, realtime_answers, handle_message_silent,
}
use mcproc.Mcp.Results.{IsResponse, handle_request-IsResponse, tools_call-Ends}
use mcproc.Mcp.Results

-- Every value is a text; objects have no fields.
abbrev texts : Json Text
texts = record {
  get = λ key v. none;
  as_str = λ v. some v;
  pretty = λ v. v;
  text = λ s. s;
  bool = λ b. [];
  array = λ vs. [];
  object = λ fields. [];
}

abbrev server : Protocol Text Text
server = record {
  server_name = codes "mcproc";
  server_version = codes "1";
  tools = [];
  custom_handlers = [];
  notification_sender = none;
  delivered = [];
  state = [];
}

abbrev call : JsonRpcRequest Text
call = record {
  jsonrpc = codes "2.0";
  method = codes "tools/call";
  params = none;
  id = number (pos 7);
}

abbrev calls : JsonRpcMessage Text
calls = batch (
    cons (request call) (
      cons (notification (record { jsonrpc = codes "2.0"; method = codes "x"; params = none }))
        (cons (request call) nil)))

handle_message_answers_example : answered_by (handle_message texts calls server).0 ≡ requested calls
handle_message_answers_example = handle_message_answers texts calls server

realtime_answers_example :
    answered_by (handle_message_realtime texts calls server).0 ≡ requested calls
realtime_answers_example = realtime_answers texts calls server

handle_message_silent_example :
    ((handle_message texts calls server).0 ≡ none) ↔ (requested calls ≡ [])
handle_message_silent_example = handle_message_silent texts calls server

handle_request-IsResponse_example :
    IsResponse call.id (handle_request_with_sender texts call queued server).0
handle_request-IsResponse_example = handle_request-IsResponse texts call queued server

-- A tool that fails.
abbrev failing : ToolHandler Text Text
failing = record {
  tool_info = record { name = codes "stop"; description = []; input_schema = [] };
  handle = λ arguments context state. record {
    result = err (internal (codes "no"));
    sent = [];
    state = state;
  };
}

-- Every key of an object is there, and is the name of the tool.
abbrev naming : Json Text
naming = record texts { get = λ key v. some (codes "stop") }

abbrev with_tool : Protocol Text Text
with_tool = record server { tools = (codes "stop", failing) ∷ [] }

abbrev named_call : JsonRpcRequest Text
named_call = record call { params = some (codes "{}") }

tools_call-Ends_example :
    Results.Ends naming named_call.params named_call.id with_tool
      (handle_request_with_sender naming named_call queued with_tool).0
unfolding text_eq from_str
tools_call-Ends_example = tools_call-Ends naming named_call queued with_tool refl refl

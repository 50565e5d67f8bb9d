-- ===== src/Mcp/Types.antt =====
-- The messages of JSON-RPC and the errors (mcp-rs/src/types.rs, mcp-rs/src/error.rs). The values of the
-- `serde_json` crate are a type `V` with the operations of `Json`.
use mcproc.Prelude.{
  Bool, List, [], ◌∷◌, ◌++◌, Option, if◌then◌else◌, ℤ, negsuc, Text, codes, text_eq,
}

-- What the protocol asks of a JSON value: `get` with a key, `as_str`, `to_string_pretty` (which the code
-- backs with `to_string`), and the values that `json!` makes.
pub record Json (V : Type 0) : Type 0 where
  pub get : Text → V → Option V
  pub as_str : V → Option Text
  pub pretty : V → Text
  pub text : Text → V
  pub bool : Bool → V
  pub array : List V → V
  pub object : List (Text × V) → V

pub data JsonRpcId : Type 0 where
  string : Text → JsonRpcId
  number : ℤ → JsonRpcId
  null : JsonRpcId

pub record JsonRpcRequest (V : Type 0) : Type 0 where
  pub jsonrpc : Text
  pub method : Text
  pub params : Option V
  pub id : JsonRpcId

pub record JsonRpcNotification (V : Type 0) : Type 0 where
  pub jsonrpc : Text
  pub method : Text
  pub params : Option V

-- No error of the protocol has `data`.
pub record JsonRpcError : Type 0 where
  pub code : ℤ
  pub message : Text

pub record JsonRpcResponse (V : Type 0) : Type 0 where
  pub jsonrpc : Text
  pub result : Option V
  pub error : Option JsonRpcError
  pub id : JsonRpcId

mutual
  pub data JsonRpcMessage (V : Type 0) : Type 0 where
    request : JsonRpcRequest V → JsonRpcMessage V
    response : JsonRpcResponse V → JsonRpcMessage V
    notification : JsonRpcNotification V → JsonRpcMessage V
    batch : Messages V → JsonRpcMessage V

  -- `Vec<JsonRpcMessage>`
  pub data Messages (V : Type 0) : Type 0 where
    nil : Messages V
    cons : JsonRpcMessage V → Messages V → Messages V

pub record ToolInfo (V : Type 0) : Type 0 where
  pub name : Text
  pub description : Text
  pub input_schema : V

-- The tool as JSON, with the names that `Serialize` gives to its fields.
unfoldable pub tool_info_value : {V : Type 0} → Json V → ToolInfo V → V
tool_info_value json info = json.object (
    (codes "name", json.text info.name)
    ∷ (codes "description", json.text info.description)
    ∷ (codes "inputSchema", info.input_schema)
    ∷ [])

pub data McpMethod : Type 0 where
  initialize shutdown tools_list tools_call : McpMethod
  custom : Text → McpMethod

-- `req.method.parse::<McpMethod>()`
unfoldable pub from_str : Text → McpMethod
from_str s =
    if text_eq s (codes "initialize")
    then initialize
    else if text_eq s (codes "shutdown")
    then shutdown
    else if text_eq s (codes "tools/list")
    then tools_list
    else if text_eq s (codes "tools/call")
    then tools_call
    else custom s

-- The errors; a library's error is the text that it displays.
pub data Error : Type 0 where
  transport protocol serialization io method_not_found : Text → Error
  invalid_params tool_not_found internal not_implemented : Text → Error

-- `error.to_string()`
unfoldable pub to_string : Error → Text
to_string (transport s) = codes "Transport error: " ++ s
to_string (protocol s) = codes "Protocol error: " ++ s
to_string (serialization s) = codes "Serialization error: " ++ s
to_string (io s) = codes "IO error: " ++ s
to_string (method_not_found s) = codes "Method not found: " ++ s
to_string (invalid_params s) = codes "Invalid params: " ++ s
to_string (tool_not_found s) = codes "Tool not found: " ++ s
to_string (internal s) = codes "Internal error: " ++ s
to_string (not_implemented s) = codes "Not implemented: " ++ s

-- The codes of `error_codes`: -32600, -32601, -32602, -32603 and -32000.
abbrev pub invalid_request_code : ℤ
invalid_request_code = negsuc 32599

abbrev pub method_not_found_code : ℤ
method_not_found_code = negsuc 32600

abbrev pub invalid_params_code : ℤ
invalid_params_code = negsuc 32601

abbrev pub internal_error_code : ℤ
internal_error_code = negsuc 32602

abbrev pub server_error_code : ℤ
server_error_code = negsuc 31999

-- `Result<T>`
pub data Result (A : Type 0) : Type 0 where
  ok : A → Result A
  err : Error → Result A

-- ===== src/Mcp/Results.antt =====
-- The shape of a response, and how `tools/call` ends (mcp-rs/src/protocol.rs).
use mcproc.Prelude.{
  none_absurd, ◌≡◌, refl, ◌⊎◌, Bool-cases, inl, inr, true, Option, none, some, Text, codes, text_eq,
  arith, lookup, Bool, false, [], ◌∷◌, ◌++◌, Option-cases, some_inj, sym, ap, ◌∙◌,
}
use mcproc.Mcp.Types.{
  Json, JsonRpcId, JsonRpcRequest, JsonRpcError, JsonRpcResponse, Result, ok, err, from_str,
  tools_call, invalid_params_code, to_string,
}
use mcproc.Mcp.Protocol.{
  Protocol, Sender, given, queued, ToolHandler, Outcome, deliver, pure, call_tool, call_named,
  handle_tools_call, wrap_result, tool_response, progress_token, invalid_request_response,
  error_to_json_rpc, and_str,
}
use mcproc.Mcp.Messages.{response_of, handle_request_with_sender, dispatch}

-- Version 2.0, the identifier of the request, and either a result or an error.
abbrev pub IsResponse : {V : Type 0} → JsonRpcId → JsonRpcResponse V → Type 0
IsResponse {V} id r =
    (r.jsonrpc ≡ codes "2.0")
    × (r.id ≡ id)
    × (((v : V) × (r.result ≡ some v) × (r.error ≡ none))
        ⊎ ((e : JsonRpcError) × (r.result ≡ none) × (r.error ≡ some e)))

response_of-IsResponse :
    {V : Type 0} (id : JsonRpcId) (r : Result V) → IsResponse id (response_of id r)
unfolding response_of
response_of-IsResponse id (ok v) = (refl, refl, inl (v, refl, refl))
response_of-IsResponse id (err e) = (refl, refl, inr (error_to_json_rpc e, refl, refl))

module _ {V : Type 0} (json : Json V) where
  -- The text that a tool answers as `tools/call` wraps it.
  abbrev pub content : Text → Bool → V
  content text is_error = json.object (
      (
        codes "content",
        json.array (
            json.object
              ((codes "type", json.text (codes "text")) ∷ (codes "text", json.text text) ∷ [])
            ∷ []),
      )
      ∷ (codes "isError", json.bool is_error)
      ∷ [])

  -- What the answer of a tool comes as: its value printed, or its error as a text that is marked.
  abbrev pub Shows : Result V → JsonRpcResponse V → Type 0
  Shows (ok v) r = (r.error ≡ none) × (r.result ≡ some (content (json.pretty v) false))
  Shows (err e) r =
      (r.error ≡ none) × (r.result ≡ some (content (codes "Error: " ++ to_string e) true))

  wrap_result-Shows :
      (id : JsonRpcId) (r : Result V) → Shows r (response_of id (wrap_result json r))
  unfolding response_of wrap_result tool_response
  wrap_result-Shows id (ok v) = (refl, refl)
  wrap_result-Shows id (err e) = (refl, refl)

module _ {V S : Type 0} (json : Json V) where
  -- Every request is answered, with its own identifier, by a response of version 2.0 that has either a
  -- result or an error.
  pub handle_request-IsResponse :
      (req : JsonRpcRequest V) (sender : Sender) (p : Protocol V S)
      → IsResponse req.id (handle_request_with_sender json req sender p).0
  unfolding handle_request_with_sender invalid_request_response
  handle_request-IsResponse req sender p = elim (Bool-cases (text_eq req.jsonrpc (codes "2.0"))) [
    | inl e ↦
        rw e (response_of-IsResponse req.id (dispatch json (from_str req.method) req sender p).0)
    | inr e ↦ rw e (refl, refl, inr (_, refl, refl))
  ]

  deliver_result :
      (sender : Sender) (p : Protocol V S) (o : Outcome V S) → (deliver sender p o).0 ≡ o.result
  unfolding deliver
  deliver_result queued p o = refl
  deliver_result (given n) p o = refl

  -- The parameters name a tool that is registered.
  abbrev pub Names : Option V → Protocol V S → V → ToolHandler V S → Type 0
  Names given_params p params handler =
      (given_params ≡ some params)
      × ((name : Text) × (and_str json (json.get (codes "name") params) ≡ some name)
          × (lookup name p.tools ≡ some handler))

  -- How a call ends: as the tool answers, or with an error of the parameters where none is named.
  abbrev pub Ends : Option V → JsonRpcId → Protocol V S → JsonRpcResponse V → Type 0
  Ends given_params id p r =
      ((params : V) × (handler : ToolHandler V S) × Names given_params p params handler
        × Shows json
            (handler.handle (json.get (codes "arguments") params)
              (record { progress_token = progress_token json (some params); request_id = some id })
              p.state).result
            r)
      ⊎ (((params : V) (handler : ToolHandler V S) → Names given_params p params handler → ⊥)
          × (r.result ≡ none)
          × ((e : JsonRpcError) × (r.error ≡ some e) × (e.code ≡ invalid_params_code)))

  handle_tools_call-Ends :
      (params : Option V) (id : JsonRpcId) (sender : Sender) (p : Protocol V S)
      → Ends params id p (response_of id (handle_tools_call json params id sender p).0)
  unfolding handle_tools_call call_named call_tool pure response_of error_to_json_rpc
  handle_tools_call-Ends none id sender p =
      inr (λ params handler (e, named). absurd (ground arith), refl, (_, refl, refl))
  handle_tools_call-Ends (some params) id sender p =
      elim (Option-cases (and_str json (json.get (codes "name") params))) [
        | inl e ↦
            rw (e, call_named)
              (inr (
                λ q handler (same, (name, named, found)). unnamed e q same name named,
                refl,
                (_, refl, refl),
              ))
        | inr (name, e) ↦ elim (Option-cases (lookup name p.tools)) [
          | inl absent ↦
              rw (e, absent, call_named, call_tool)
                (inr (
                  λ q handler (same, (other, named, found)).
                      unregistered name e absent q same other named handler found,
                  refl,
                  (_, refl, refl),
                ))
          | inr (handler, found) ↦
              rw (e, found, call_named, call_tool)
                (inl (
                  params,
                  handler,
                  (refl, (name, e, found)),
                  rw (deliver_result sender p) (wrap_result-Shows json id _),
                ))
        ]
      ]
    where
      unnamed :
          and_str json (json.get (codes "name") params) ≡ none
          → (q : V) → some params ≡ some q
          → (name : Text) → and_str json (json.get (codes "name") q) ≡ some name
          → ⊥
      unnamed e q same name named =
          let eq : params ≡ q = some_inj params q same in
          absurd
            (none_absurd (sym e ∙ ap (λ x. and_str json (json.get (codes "name") x)) eq ∙ named))

      unregistered :
          (name : Text)
          → and_str json (json.get (codes "name") params) ≡ some name
          → lookup name p.tools ≡ none
          → (q : V) → some params ≡ some q
          → (other : Text) → and_str json (json.get (codes "name") q) ≡ some other
          → (handler : ToolHandler V S) → lookup other p.tools ≡ some handler
          → ⊥
      unregistered name e absent q same other named handler found =
          let eq : params ≡ q = some_inj params q same in
          let names : name ≡ other =
            some_inj name other
              (sym e ∙ ap (λ x. and_str json (json.get (codes "name") x)) eq ∙ named) in
          none_absurd (sym absent ∙ ap (λ x. lookup x p.tools) names ∙ found)

  -- A `tools/call` of version 2.0 ends as the tool answers that its parameters name: the value comes as a
  -- result, printed, and an error of the tool as a result too, as a text that is marked; where they name no
  -- tool that is registered, it ends in the error of the protocol for parameters (-32602).
  pub tools_call-Ends :
      (req : JsonRpcRequest V) (sender : Sender) (p : Protocol V S)
      → text_eq req.jsonrpc (codes "2.0") ≡ true
      → from_str req.method ≡ tools_call
      → Ends req.params req.id p (handle_request_with_sender json req sender p).0
  unfolding handle_request_with_sender dispatch
  tools_call-Ends req sender p version method =
      rw (version, method) (handle_tools_call-Ends req.params req.id sender p)

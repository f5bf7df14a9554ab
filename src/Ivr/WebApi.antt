-- ===== src/Ivr/WebApi.antt =====
-- src/esl/ivr.service.ts: `webApi`, the step that asks a web service, stores its answer in a channel
-- variable and jumps by it.
pub mod Laws
use next_call.Ivr.Steps.{next}
use next_call.Esl.Value.Decimal.{show_nat}
use next_call.Ivr.Compare.{string_of}
use next_call.Base.Assoc.{assign}
use next_call.Session.{Answer, pure, ◌>>=◌, ◌>>◌, await, or_raise, time}
use next_call.Ivr.{Ivr, NextStep, get_channel_var, create_process, set_var, http_request}
use next_call.Base.{
  Bytes, Option, ℕ, List, Bool, codes, ◌∷◌, [], split, get_elem?, some, ◌++◌, text_or,
  if◌then◌else◌, none, text_eq, leb, ◌&&◌, ltb, starts_with, ◌-◌,
}

-- `args.logic` and `args.pbx`. The data of the request may be `undefined`; a text that is not set is
-- empty, but for the jumps, which the step takes apart.
pub record WebArgs : Type 0 where
  pub method : Bytes
  pub url : Bytes
  pub data_of : List (Bytes × Option Bytes)
  pub channel_var_data : List (Bytes × Bytes)
  pub error_go : Bytes
  pub reset_var : Bytes
  pub var_name : Bytes
  pub success : Option Bytes
  pub fail : Option Bytes

-- What `httpPromise` resolves to: the code of the error, the status of the response, and `data` and
-- `success` of its body.
pub record Http : Type 0 where
  pub error : Option Bytes
  pub status : Option ℕ
  pub body : Option (Bytes × Bool)

-- The call: its tenant, its number and its caller
pub record Ids : Type 0 where
  pub tenant_id : Bytes
  pub call_id : Bytes
  pub caller : Bytes

abbrev pub type_error : Bytes
type_error = codes "TypeError"

-- A value that is `_undef_` is stored as the empty text.
unfoldable pub stored_value : Option Bytes → Option Bytes
stored_value none = none
stored_value (some v) = some (if text_eq v (codes "_undef_") then [] else v)

-- The loop over the keys of `channelVarData`
unfoldable pub channel_values : Bytes → List (Bytes × Bytes) → Ivr (List (Bytes × Option Bytes))
channel_values uuid [] = pure []
channel_values uuid ((k, v) ∷ m) = do
  a ← await (get_channel_var uuid v)
  cv ← channel_values uuid m
  pure ((k, stored_value a.body) ∷ cv)

-- `Object.assign({}, data, cvData, { … })`
unfoldable pub pass_data :
    WebArgs → Ids → ℕ → List (Bytes × Option Bytes) → List (Bytes × Option Bytes)
pass_data args ids t cv = assign (assign (assign [] args.data_of) cv) (
    (codes "tenantId", some ids.tenant_id)
    ∷ (codes "callerIdNumber", some ids.caller)
    ∷ (codes "reqId", some (ids.call_id ++ (codes "." ++ show_nat t)))
    ∷ [])

-- `toUpperCase`, on the letters of a method
unfoldable pub upper : Bytes → Bytes
upper [] = []
upper (c ∷ s) = (if leb b'a' c && leb c b'z' then c - 32 else c) ∷ upper s

-- The value for the answer, among the replacements `answer=value`: the first that fits
unfoldable pub replaced : List Bytes → Bytes → Bytes
replaced [] d = d
replaced (c ∷ cs) d =
    let p = split b'=' c in
    if text_eq (string_of (get_elem? p 0)) d then string_of (get_elem? p 1) else replaced cs d

unfoldable pub value_of_answer : Bytes → Bytes → Bytes
value_of_answer [] d = d
value_of_answer (c ∷ r) d = replaced (split b',' (c ∷ r)) d

-- A jump without an ordinal goes to the first step.
unfoldable pub with_ordinal : Bytes → Bytes
with_ordinal go =
    string_of (get_elem? (split b',' go) 0)
    ++ (codes ","
        ++ text_or (elim (get_elem? (split b',' go) 1) as (λ _. Bytes) [ none ↦ [] | some o ↦ o ])
            (codes "1"))

unfoldable pub api_failed : WebArgs → Http → Ivr NextStep
api_failed args h = do
  or_raise type_error h.status
  await (create_process (codes "ivrReturn"))
  pure (next (codes "ivr") args.error_go)

unfoldable pub api_answered : WebArgs → Bytes → Http → Ivr NextStep
api_answered args uuid h = do
  b ← or_raise type_error h.body
  await (set_var uuid args.var_name (value_of_answer args.reset_var b.0))
  await (create_process (codes "ivrReturn"))
  go ← or_raise type_error (if b.1 then args.success else args.fail)
  pure (next (codes "ivr") (with_ordinal go))

-- `error || response.statusCode > 299`
unfoldable pub after_request : WebArgs → Bytes → Http → Ivr NextStep
after_request args uuid h = elim h.error as (λ _. Ivr NextStep) [
  | some e ↦ api_failed args h
  | none ↦ do
    status ← or_raise type_error h.status
    if ltb 299 status then api_failed args h else api_answered args uuid h
]

-- `read_http` is what the request's callback is given, and `base_url` is of the configuration.
module _ (read_http : Answer → Http) (base_url : Bytes) where
  unfoldable pub web_api : WebArgs → Ids → Bytes → Ivr NextStep
  web_api args ids uuid = do
    cv ← channel_values uuid args.channel_var_data
    t ← time
    let url = if starts_with args.url (codes "http") then args.url else base_url ++ args.url
    await (create_process (codes "ivrRestApi"))
    a ← await (http_request url (upper args.method) (pass_data args ids t cv))
    after_request args uuid (read_http a)

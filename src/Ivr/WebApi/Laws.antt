-- ===== src/Ivr/WebApi/Laws.antt =====
-- src/esl/ivr.service.ts: what `webApi` sends, and what it does where the request fails.
use next_call.Esl.Value.Decimal.{show_nat}
use next_call.Base.Assoc.{HasOwnKeys, lookup, lookup-assign, assign, lookup_cons, lookup_nil}
use next_call.Session.Values.{Gives, Gives-then, Gives-raise, Gives-bind}
use next_call.Ivr.Action.Rules.{
  is_action, IsStep, IsStep-pure, step_rules, IsStep-bind, IsStep-await,
}
use next_call.Ivr.{NextStep, Ivr, IvrData, Call}
use next_call.Session.{Program, Answer, raise, World, ◌>>=◌, or_raise, Now, ok}
use next_call.Ivr.WebApi.{
  api_failed, web_api, pass_data, channel_values, after_request, Http, WebArgs, api_answered, Ids,
  type_error,
}
use next_call.Base.{
  Bytes, some, List, none, ℕ, Option, ◌≡◌, if◌then◌else◌, ◌≢◌, text_eq, ltb, codes, ◌++◌, ◌∷◌, [],
  ◌∙◌, arith, refl,
}

-- The callback's arguments for a request that has got no response
abbrev pub no_response : Bytes → Http
no_response e = record { error = some e; status = none; body = none }

module _ {S C A B : Type 0} {P : B → Type 0} where
  Gives-raise_then : (e : Bytes) (g : A → Program S C B) → Gives P (raise e >>= g)
  Gives-raise_then e g = Gives-then {Q = λ _. ⊥} (raise e) g (Gives-raise e) λ a x. absurd x

api_failed-Gives :
    {P : NextStep → Type 0} (args : WebArgs) (e : Bytes) → Gives P (api_failed args (no_response e))
unfolding api_failed
api_failed-Gives args e = Gives-raise_then _ _

-- A request that gets no response, such as one that times out, is an exception of the step, so the
-- jump for errors that the menu gives is not taken.
pub web_api-no_response :
    (read_http : Answer → Http) (base_url : Bytes) (args : WebArgs) (ids : Ids) (uuid e : Bytes)
    (w : World IvrData Call) (n : Now IvrData Call) (s : NextStep)
    → ((a : Answer) → read_http a ≡ no_response e)
    → (web_api read_http base_url args ids uuid w n).0 ≢ ok s
unfolding web_api after_request
web_api-no_response read_http base_url args ids uuid e w n s h k =
    let g : Gives (λ _. ⊥) (web_api read_http base_url args ids uuid) = Gives-bind _ _ λ cv.
      Gives-bind _ _
        λ t. Gives-bind _ _ λ _. Gives-bind _ _ λ a. rw (h a) (api_failed-Gives args e) in
    g.gives w n s k

-- The three fields of the call have different keys.
call_keys :
    (x y z : Option Bytes)
    → HasOwnKeys ((codes "tenantId", x) ∷ (codes "callerIdNumber", y) ∷ (codes "reqId", z) ∷ [])
unfolding lookup codes text_eq
call_keys x y z = (refl, (refl, (refl, tt)))

-- The second where there is no first
abbrev pub either : {A : Type 0} → Option A → Option A → Option A
either none d = d
either (some v) d = some v

-- The data of the request: the fields of the call come before the channel variables, and these before
-- the data that the menu gives.
pub lookup-pass_data :
    (args : WebArgs) (ids : Ids) (t : ℕ) (cv : List (Bytes × Option Bytes)) (k : Bytes)
    → HasOwnKeys args.data_of
    → HasOwnKeys cv
    → lookup k (pass_data args ids t cv) ≡ (
        if text_eq (codes "tenantId") k
        then some (some ids.tenant_id)
        else if text_eq (codes "callerIdNumber") k
        then some (some ids.caller)
        else if text_eq (codes "reqId") k
        then some (some (ids.call_id ++ (codes "." ++ show_nat t)))
        else either (lookup k cv) (lookup k args.data_of))
unfolding pass_data
lookup-pass_data args ids t cv k h h' =
    let req : Option Bytes = some (ids.call_id ++ (codes "." ++ show_nat t)) in
    let own : List (Bytes × Option Bytes) =
      (codes "tenantId", some ids.tenant_id)
      ∷ (codes "callerIdNumber", some ids.caller)
      ∷ (codes "reqId", req)
      ∷ [] in
    lookup-assign own (assign (assign [] args.data_of) cv) k
      (call_keys (some ids.tenant_id) (some ids.caller) req)
    ∙ ground (
      arith,
      lookup-assign cv (assign [] args.data_of) k h',
      lookup-assign args.data_of [] k h,
      lookup_cons k (codes "tenantId") (some ids.tenant_id)
          ((codes "callerIdNumber", some ids.caller) ∷ (codes "reqId", req) ∷ []),
      lookup_cons k (codes "callerIdNumber") (some ids.caller) ((codes "reqId", req) ∷ []),
      lookup_cons k (codes "reqId") req [],
      lookup_nil {V = Option Bytes} k,
    )

pub channel_values-IsStep :
    (uuid : Bytes) (m : List (Bytes × Bytes)) → IsStep (channel_values uuid m)
unfolding channel_values is_action
channel_values-IsStep uuid [] = IsStep-pure []
channel_values-IsStep uuid ((k, v) ∷ m) =
    IsStep-bind _ _ (IsStep-await _ refl)
      λ a. IsStep-bind _ _ (channel_values-IsStep uuid m) λ cv. IsStep-pure _

after_request-IsStep :
    (args : WebArgs) (uuid : Bytes) (h : Http) → IsStep (after_request args uuid h)
unfolding after_request api_failed api_answered is_action
after_request-IsStep args uuid h =
    elim h.error
      as (λ e. IsStep (elim e as (λ _. Ivr NextStep) [
        | some c ↦ api_failed args h
        | none ↦ do
          status ← or_raise type_error h.status
          if ltb 299 status then api_failed args h else api_answered args uuid h
      ])) [ none ↦ search step_rules depth 12 | some e ↦ search step_rules depth 12 ]

pub web_api-IsStep :
    (read_http : Answer → Http) (base_url : Bytes) (args : WebArgs) (ids : Ids) (uuid : Bytes)
    → IsStep (web_api read_http base_url args ids uuid)
unfolding web_api is_action
web_api-IsStep read_http base_url args ids uuid =
    search (step_rules, channel_values-IsStep, after_request-IsStep) depth 12

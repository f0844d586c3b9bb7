-- ===== src/Api/Messages.antt =====
-- The errors that a call of `request` reports.
use learn_pg.Prelude.{
  ℕ, ◌≡◌, ◌≢◌, refl, sym, ◌∙◌, ◌≤◌, ◌⊎◌, inl, inr, true, Option, none, some, List, [], ◌∷◌, String,
  arith, show, IsDigitText, show-IsDigitText, Bool-cases, ◌++ₛ◌, ◌==◌, string_eq, nat_eq, beq_ne→ne,
  NonEmpty, ltb, ◌&&◌, ◌||◌, ◌+◌, false,
}
use learn_pg.Api.Errors.{
  ApiError, Json, Fields, text, obj, member, message_member, member_message, message_keys,
  object_message, status_message, extract_message, text_length, or_message,
}
use learn_pg.Api.Types.{
  Response, FetchResult, resolved, rejected, Attempt, is_ok, run_fetch, World, fetch_result,
  RequestOptions, Config, threw, JsonResult, json_value, syntax_error,
}
use learn_pg.Api.Client.{
  parse_body, parsed_body, max_of, method_of, url_of, http_api_error, network_api_error, request,
}
use learn_pg.Api.Retry.{send_count, result_of, request-EndsAt}

NonEmpty-of_digits : (s t : String) → IsDigitText s → NonEmpty (s ++ₛ t)
NonEmpty-of_digits String.[] t h = absurd h
NonEmpty-of_digits (String.◌∷◌ c s) t h = tt

NonEmpty-of_ne : (s : String) → s ≢ "" → NonEmpty s
NonEmpty-of_ne String.[] h = h refl
NonEmpty-of_ne (String.◌∷◌ c s) h = tt

abbrev NonEmpty? : Option String → Type 0
NonEmpty? none = Unit {0}
NonEmpty? (some s) = NonEmpty s

message_member-NonEmpty : (o : Option Json) → NonEmpty? (message_member o)
message_member-NonEmpty (some (text s)) = elim (Bool-cases (s == "")) [
  | inl e ↦ rw e tt
  | inr n ↦ rw n (NonEmpty-of_ne s (beq_ne→ne s "" n))
]
message_member-NonEmpty _ = tt

member_message-NonEmpty : (ks : List String) (fs : Fields) → NonEmpty? (member_message ks fs)
unfolding member_message
member_message-NonEmpty [] fs = tt
member_message-NonEmpty (k ∷ ks) fs =
    first (message_member (member k fs)) (message_member-NonEmpty (member k fs))
      (member_message-NonEmpty ks fs)
  where
    first :
        (o : Option String)
        → NonEmpty? o
        → NonEmpty? (member_message ks fs)
        → NonEmpty? (elim o [ some s ↦ some s | none ↦ member_message ks fs ])
    first none h rest = rest
    first (some s) h rest = h

status_message-NonEmpty : (status : ℕ) (body : String) → NonEmpty (status_message status body)
unfolding status_message
status_message-NonEmpty status body =
    elim (Bool-cases (ltb 0 (text_length body) && ltb (text_length body) 500)) [
      | inl short ↦ rw short (NonEmpty-of_digits (show status) _ (show-IsDigitText status))
      | inr long ↦ rw long tt
    ]

object_message-NonEmpty : (parsed : Option Json) → NonEmpty? (object_message parsed)
object_message-NonEmpty (some (obj fs)) = member_message-NonEmpty message_keys fs
object_message-NonEmpty _ = tt

or_message-NonEmpty :
    (o : Option String) (s : String) → NonEmpty? o → NonEmpty s → NonEmpty (or_message o s)
or_message-NonEmpty none s h k = k
or_message-NonEmpty (some m) s h k = h

-- The message of an HTTP error is never empty, whatever the server sent.
pub extract_message-NonEmpty :
    (parsed : Option Json) (status : ℕ) (body : String)
    → NonEmpty (extract_message parsed status body)
unfolding extract_message
extract_message-NonEmpty parsed status body =
    or_message-NonEmpty (object_message parsed) _ (object_message-NonEmpty parsed)
      (status_message-NonEmpty status body)

module _ (parse_json : String → JsonResult) (cfg : Config) (path : String)
    (o : RequestOptions) where
  -- An error of a request that failed: it names the request.
  abbrev pub NamesRequest : Attempt → ApiError → Type 0
  NamesRequest a e =
      (e.method ≡ method_of parse_json cfg path o)
      × (e.url ≡ url_of parse_json cfg path o)
      × (e.request_id ≡ some a.request_id)

  -- The body that should be JSON: it is there, and `JSON.parse` does not read it.
  abbrev pub NotJson : Response → String → Type 0
  NotJson r body =
      ((r.status == 204) ≡ false)
      × ((body == "") ≡ false)
      × ((m : String) × (parse_json body ≡ syntax_error m))

  -- An error of a response that was not JSON: it has the response's status and URL, and neither method
  -- nor request id.
  abbrev pub NamesResponse : Response → ApiError → Type 0
  NamesResponse r e =
      (e.status ≡ r.status) × (e.url ≡ r.url) × (e.method ≡ "") × (e.request_id ≡ none)

  -- An error of what an attempt got: no answer, an answer of failure, or one of success that is not JSON.
  abbrev pub IsErrorOf : Attempt → FetchResult → ApiError → Type 0
  IsErrorOf a (rejected t) e = NamesRequest a e × (e.status ≡ 0) × (e.cause ≡ some t)
  IsErrorOf a (resolved r body) e =
      ((is_ok r ≡ false) × NamesRequest a e × (e.status ≡ r.status))
      ⊎ ((is_ok r ≡ true) × NotJson r body × NamesResponse r e)

  parsed_body-threw :
      (r : Response) (body : String) (j : JsonResult) {e : ApiError}
      → parse_json body ≡ j
      → parsed_body parse_json r j ≡ threw e
      → ((m : String) × (parse_json body ≡ syntax_error m)) × NamesResponse r e
  parsed_body-threw r body (json_value v) is h = absurd (cc)
  parsed_body-threw r body (syntax_error m) is h = ((m, is), ground (arith, h))

  parse_body-threw :
      (r : Response) (body : String) {e : ApiError}
      → parse_body parse_json r body ≡ threw e
      → NotJson r body × NamesResponse r e
  unfolding parse_body
  parse_body-threw r body h = elim (Bool-cases (r.status == 204 || body == "")) [
    | inl blank ↦ let none_thrown = rw blank at h in absurd (cc)
    | inr full ↦
        let (syntax, names) = parsed_body-threw r body (parse_json body) refl (rw full at h) in
        ((ground (arith, full), ground (arith, full), syntax), names)
  ]

  result_of-threw :
      (a : Attempt) (x : FetchResult) {e : ApiError}
      → result_of parse_json cfg path o a.request_id (run_fetch x) ≡ threw e
      → IsErrorOf a x e
  unfolding run_fetch http_api_error network_api_error
  result_of-threw a (rejected t) h = ground (arith, h)
  result_of-threw a (resolved r body) {e} h = elim (Bool-cases (is_ok r)) [
    | inl fine ↦
        let (bad, names) = parse_body-threw r body {e = e} (rw fine at h) in inr (fine, bad, names)
    | inr failed ↦
        let (names, status) : NamesRequest a e × (e.status ≡ r.status) =
          ground (arith, rw failed at h) in
        inl (failed, names, status)
  ]

  -- Every error that a call throws is of the last attempt that it made: it names the method, URL and
  -- request id of that attempt, with the status of the answer or 0, or the attempt got a successful
  -- response with a body that is not JSON, and the error has the status and URL of that response and
  -- neither method nor request id.
  pub request-threw :
      (world : World) {e : ApiError}
      → (request parse_json cfg path o world).settled ≡ threw e
      → (k : ℕ) × (send_count (request parse_json cfg path o world).effects ≡ k + 1)
        × (k ≤ max_of cfg o)
        × IsErrorOf (world k) (fetch_result (world k)) e
  request-threw world h =
      let (k, ends) = request-EndsAt parse_json cfg path o world in
      (
        k,
        omega (arith, ends.4),
        ends.1,
        result_of-threw (world k) (fetch_result (world k)) (sym ends.7 ∙ h),
      )

-- ===== src/Api/Client.antt =====
-- `createApiClient` and `request` in frontend/src/lib/api.ts.
-- `parse_json` stands for `JSON.parse`.
use learn_pg.Prelude.{
  ℕ, zero, suc, ◌+◌, Bool, true, ◌&&◌, ◌||◌, not, Option, none, some, List, [], ◌∷◌, ◌++◌, String,
  ltb, get_or, ◌==◌, string_eq, nat_eq, if◌then◌else◌, ◌++ₛ◌, show,
}
use learn_pg.Prelude.Map.{get, set}
use learn_pg.Events.{number, text, bool}
use learn_pg.Breadcrumbs.{Crumb, fetch, info, error}
use learn_pg.Backoff.{Random, backoff}
use learn_pg.Api.Errors.{
  ApiError, Thrown, Json, is_retryable, describe_network_error, extract_message,
}
use learn_pg.Api.Types.{
  Response, FetchOutcome, ok, http_error, network_error, run_fetch, Attempt, World, fetch_result,
  aborted, Body, raw, json, RequestOptions, Config, Request, Effect, breadcrumb, sends, retries,
  sleeps, Settled, no_body, parsed, threw, fell_through, JsonResult, json_value, syntax_error, Run,
  Round, finish, again,
}
use learn_pg.Api.Url.{join_url}

abbrev set_all : List (String × String) → List (String × String) → List (String × String)
set_all [] headers = headers
set_all ((k, v) ∷ more) headers = set_all more (set k v headers)

abbrev with_content_type : Option Body → List (String × String) → List (String × String)
with_content_type none headers = headers
with_content_type (some b) headers =
    set "Content-Type" (get_or (get "Content-Type" headers) "application/json") headers

abbrev body_text : Option Body → Option String
body_text none = none
body_text (some (raw s)) = some s
body_text (some (json s)) = some s

unfoldable pub request_headers : String → RequestOptions → List (String × String)
request_headers id o =
    with_content_type o.body
      (set_all o.headers (("Accept", "application/json") ∷ ("X-Request-Id", id) ∷ []))

-- `options.retry !== false`
abbrev pub retry_enabled : RequestOptions → Bool
retry_enabled o = get_or o.retry true

abbrev pub max_of : Config → RequestOptions → ℕ
max_of cfg o = get_or o.max_retries cfg.max_retries

module _ (parse_json : String → JsonResult) where
  abbrev pub parsed_body : Response → JsonResult → Settled
  parsed_body r (json_value j) = parsed j
  parsed_body r (syntax_error m) = threw (record {
    message = "api: response was not valid JSON: " ++ₛ m;
    status = r.status;
    url = r.url;
    method = "";
    request_id = none;
    cause = none;
  })

  unfoldable pub parse_body : Response → String → Settled
  parse_body r body =
      if r.status == 204 || body == "" then no_body else parsed_body r (parse_json body)

  abbrev pub value_of : JsonResult → Option Json
  value_of (json_value j) = some j
  value_of (syntax_error m) = none

  -- The body of an HTTP error, or `undefined` if it is empty or no JSON.
  abbrev pub error_body : String → Option Json
  error_body body = if body == "" then none else value_of (parse_json body)

  module _ (cfg : Config) (path : String) (o : RequestOptions) where
    abbrev pub method_of : String
    method_of = get_or o.method "GET"

    abbrev pub url_of : String
    url_of = join_url cfg.base_url path

    unfoldable pub request_of : String → Request
    request_of id = record {
      url = url_of;
      method = method_of;
      headers = request_headers id o;
      body = body_text o.body;
      timeout_ms = get_or o.timeout_ms cfg.default_timeout_ms;
    }

    abbrev pub start_crumb : String → ℕ → Crumb
    start_crumb id attempt = record {
      kind = fetch;
      level = none;
      message = method_of ++ₛ " " ++ₛ path ++ₛ " (attempt " ++ₛ show (attempt + 1) ++ₛ ")";
      details =
          ("requestId", text id)
          ∷ ("attempt", number (attempt + 1))
          ∷ ("method", text method_of)
          ∷ ("url", text url_of)
          ∷ [];
    }

    abbrev pub http_failed : String → ℕ → String → Crumb
    http_failed id status message = record {
      kind = fetch;
      level = some error;
      message = method_of ++ₛ " " ++ₛ path ++ₛ " failed: " ++ₛ show status ++ₛ " " ++ₛ message;
      details = ("requestId", text id) ∷ ("status", number status) ∷ ("url", text url_of) ∷ [];
    }

    abbrev pub network_failed : String → Bool → String → Crumb
    network_failed id is_aborted message = record {
      kind = fetch;
      level = some (if is_aborted then info else error);
      message =
          if is_aborted
          then method_of ++ₛ " " ++ₛ path ++ₛ " aborted"
          else method_of ++ₛ " " ++ₛ path ++ₛ " network error: " ++ₛ message;
      details = ("requestId", text id) ∷ ("url", text url_of) ∷ ("aborted", bool is_aborted) ∷ [];
    }

    unfoldable pub http_api_error : String → Response → String → ApiError
    http_api_error id r body = record {
      message = extract_message (error_body body) r.status body;
      status = r.status;
      url = url_of;
      method = method_of;
      request_id = some id;
      cause = none;
    }

    unfoldable pub network_api_error : String → Thrown → ApiError
    network_api_error id e = record {
      message = describe_network_error e;
      status = 0;
      url = url_of;
      method = method_of;
      request_id = some id;
      cause = some e;
    }

    -- What every attempt does first.
    abbrev pub starts_with : String → ℕ → List Effect
    starts_with id attempt = breadcrumb (start_crumb id attempt) ∷ sends (request_of id) ∷ []

    -- What an attempt does that will be followed by another.
    abbrev pub waits : Random → ℕ → ApiError → List Effect
    waits random attempt err =
        let delay_ms = backoff random attempt cfg.base_backoff_ms cfg.max_backoff_ms in
        if cfg.on_retry
        then retries (record {
          attempt = attempt + 1;
          url = url_of;
          method = method_of;
          status = err.status;
          delay_ms = delay_ms;
          error = err.message;
        })
          ∷ sleeps delay_ms
          ∷ []
        else sleeps delay_ms ∷ []

    -- `again` if the error may be retried, otherwise `finish` with a breadcrumb.
    abbrev pub go_on_if : Bool → Attempt → ℕ → ApiError → Crumb → Round
    go_on_if retryable a attempt err failed =
        if retryable
        then again (starts_with a.request_id attempt ++ waits a.random attempt err) err
        else finish (starts_with a.request_id attempt ++ breadcrumb failed ∷ []) (threw err)

    abbrev pub settle_round : Attempt → ℕ → FetchOutcome → Round
    settle_round a attempt (ok r body) =
        finish (starts_with a.request_id attempt) (parse_body r body)
    settle_round a attempt (http_error r body) =
        let err = http_api_error a.request_id r body in
        go_on_if (retry_enabled o && ltb attempt (max_of cfg o) && is_retryable err) a attempt err
          (http_failed a.request_id r.status err.message)
    settle_round a attempt (network_error e) =
        let err = network_api_error a.request_id e in
        go_on_if (retry_enabled o && ltb attempt (max_of cfg o) && not (aborted a)) a attempt err
          (network_failed a.request_id (aborted a) err.message)

    unfoldable pub round : World → ℕ → Round
    round world attempt =
        settle_round (world attempt) attempt (run_fetch (fetch_result (world attempt)))

    -- The `throw` behind the loop.
    abbrev pub after_loop : Option ApiError → Run
    after_loop none = record { effects = []; settled = fell_through }
    after_loop (some err) = record { effects = []; settled = threw err }

    abbrev pub prepend : List Effect → Run → Run
    prepend es r = record r { effects = es ++ r.effects }

    abbrev pub continue_round : Round → (ApiError → Run) → Run
    continue_round (finish es s) rest = record { effects = es; settled = s }
    continue_round (again es err) rest = prepend es (rest err)

    -- `for (attempt; attempt <= maxRetries; attempt++)`, with the number of rounds that are left.
    unfoldable pub loop : World → ℕ → ℕ → Option ApiError → Run
    loop world zero attempt last = after_loop last
    loop world (suc rounds) attempt last =
        continue_round (round world attempt) λ err. loop world rounds (attempt + 1) (some err)

    unfoldable pub request : World → Run
    unfolding loop
    request world = loop world (max_of cfg o + 1) 0 none

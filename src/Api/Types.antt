-- ===== src/Api/Types.antt =====
-- The types of frontend/src/lib/api.ts, and `runFetch`. What the browser answers is `World`: for each
-- attempt what `fetch` does, whether the caller's signal has been aborted, the request id and the random
-- number.
use learn_pg.Prelude.{ℕ, Bool, ◌&&◌, ◌||◌, Option, List, String, leb, get_or, if◌then◌else◌}
use learn_pg.Breadcrumbs.{Crumb}
use learn_pg.Backoff.{Random}
use learn_pg.Api.Errors.{ApiError, Thrown, dom_exception, Json}
use learn_pg.Api.Url.{strip_slashes}

pub record Response : Type 0 where
  pub status : ℕ
  pub url : String

-- `response.ok`, by its documentation.
abbrev pub is_ok : Response → Bool
is_ok r = leb 200 r.status && leb r.status 299

-- What `fetch` and `response.text()` do together: a response and its text, or a rejection.
pub data FetchResult : Type 0 where
  resolved : Response → String → FetchResult
  rejected : Thrown → FetchResult

pub data FetchOutcome : Type 0 where
  ok http_error : Response → String → FetchOutcome
  network_error : Thrown → FetchOutcome

unfoldable pub run_fetch : FetchResult → FetchOutcome
run_fetch (resolved r body) = if is_ok r then ok r body else http_error r body
run_fetch (rejected e) = network_error e

-- What the world does in one attempt.
pub record Attempt : Type 0 where
  pub request_id : String
  pub aborted_before : Bool
  pub aborted_during : Bool
  pub result : FetchResult
  pub random : Random

abbrev pub World : Type 0
World = ℕ → Attempt

-- `fetch` rejects at once when its signal is aborted already.
unfoldable pub fetch_result : Attempt → FetchResult
fetch_result a =
    if a.aborted_before
    then rejected (dom_exception "AbortError" "signal is aborted without reason")
    else a.result

-- `options.signal?.aborted` after the fetch.
abbrev pub aborted : Attempt → Bool
aborted a = a.aborted_before || a.aborted_during

pub data Body : Type 0 where
  raw : String → Body
  json : (stringified : String) → Body

pub record RequestOptions : Type 0 where
  pub method : Option String
  pub body : Option Body
  pub timeout_ms : Option ℕ
  pub retry : Option Bool
  pub max_retries : Option ℕ
  pub headers : List (String × String)

pub record ClientOptions : Type 0 where
  pub base_url : String
  pub default_timeout_ms : Option ℕ
  pub max_retries : Option ℕ
  pub base_backoff_ms : Option ℕ
  pub max_backoff_ms : Option ℕ
  pub on_retry : Bool

pub record Config : Type 0 where
  pub base_url : String
  pub default_timeout_ms : ℕ
  pub max_retries : ℕ
  pub base_backoff_ms : ℕ
  pub max_backoff_ms : ℕ
  pub on_retry : Bool

unfoldable pub configure : ClientOptions → Config
configure o = record {
  base_url = strip_slashes o.base_url;
  default_timeout_ms = get_or o.default_timeout_ms 15_000;
  max_retries = get_or o.max_retries 3;
  base_backoff_ms = get_or o.base_backoff_ms 250;
  max_backoff_ms = get_or o.max_backoff_ms 4_000;
  on_retry = o.on_retry;
}

pub record Request : Type 0 where
  pub url : String
  pub method : String
  pub headers : List (String × String)
  pub body : Option String
  pub timeout_ms : ℕ

pub record RetryInfo : Type 0 where
  pub attempt : ℕ
  pub url : String
  pub method : String
  pub status : ℕ
  pub delay_ms : ℕ
  pub error : String

-- What a call of `request` does to the world, in order.
pub data Effect : Type 0 where
  breadcrumb : Crumb → Effect
  sends : Request → Effect
  retries : RetryInfo → Effect
  sleeps : ℕ → Effect

-- How the promise of `request` settles; `no_body` is `undefined`. The last is the `Error` behind the
-- loop.
pub data Settled : Type 0 where
  no_body : Settled
  parsed : Json → Settled
  threw : ApiError → Settled
  fell_through : Settled

pub data JsonResult : Type 0 where
  json_value : Json → JsonResult
  syntax_error : (message : String) → JsonResult

pub record Run : Type 0 where
  pub effects : List Effect
  pub settled : Settled

-- One round of the loop: it ends the call, or goes on after an error.
pub data Round : Type 0 where
  finish : List Effect → Settled → Round
  again : List Effect → ApiError → Round

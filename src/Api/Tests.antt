-- ===== src/Api/Tests.antt =====
-- Tests of the HTTP client.
use learn_pg.Prelude.{
  ℕ, ◌≡◌, refl, ◌≤◌, none, [], String, arith, true, false, ◌==◌, nat_eq, if◌then◌else◌, ◌<◌, ◌*◌,
  ◌^◌, ◌+◌,
}
use learn_pg.Backoff.{Random}
use learn_pg.Api.Errors.{
  ApiError, error_value, is_retryable, describe_network_error, extract_message, status_message,
}
use learn_pg.Api.Types.{
  FetchResult, resolved, rejected, World, run_fetch, fetch_result, RequestOptions, Config,
  JsonResult, syntax_error,
}
use learn_pg.Api.Client.{request, round, http_api_error, network_api_error, parse_body}
use learn_pg.Api.Retry.{EndsAt, request-EndsAt, send_count}
use learn_pg.Api.Messages.{IsErrorOf, request-threw}
use learn_pg.Backoff.{backoff, backoff_bounds}

abbrev half : Random
half = record { numerator = 1; denominator = 2; below_one = omega arith }

-- Two failures that may pass, then a response that is no JSON.
abbrev answers : ℕ → FetchResult
answers k =
    if k == 0
    then resolved (record { status = 503; url = "u" }) ""
    else if k == 1
    then rejected (error_value "down")
    else resolved (record { status = 200; url = "u" }) "<html>"

abbrev flaky : World
flaky k = record {
  request_id = "id";
  aborted_before = false;
  aborted_during = false;
  result = answers k;
  random = half;
}

abbrev no_json : String → JsonResult
no_json s = syntax_error "Unexpected token"

abbrev cfg : Config
cfg = record {
  base_url = "http://localhost";
  default_timeout_ms = 15_000;
  max_retries = 3;
  base_backoff_ms = 250;
  max_backoff_ms = 4_000;
  on_retry = true;
}

abbrev plain : RequestOptions
plain = record {
  method = none;
  body = none;
  timeout_ms = none;
  retry = none;
  max_retries = none;
  headers = [];
}

sends_three : send_count (request no_json cfg "/health" plain flaky).effects ≡ 3
unfolding request round run_fetch fetch_result is_retryable http_api_error network_api_error
    describe_network_error extract_message status_message parse_body
sends_three = refl

request-EndsAt_example :
    (k : ℕ) × EndsAt no_json cfg "/health" plain flaky 0 k
      (request no_json cfg "/health" plain flaky)
request-EndsAt_example = request-EndsAt no_json cfg "/health" plain flaky

abbrev html_error : ApiError
html_error = record {
  message = "api: response was not valid JSON: Unexpected token";
  status = 200;
  url = "u";
  method = "";
  request_id = none;
  cause = none;
}

request-threw_example :
    (k : ℕ) × (send_count (request no_json cfg "/health" plain flaky).effects ≡ k + 1)
    × (k ≤ 3)
    × IsErrorOf no_json cfg "/health" plain (flaky k) (fetch_result (flaky k)) html_error
unfolding request round run_fetch fetch_result is_retryable http_api_error network_api_error
    describe_network_error extract_message status_message parse_body
request-threw_example = request-threw no_json cfg "/health" plain flaky refl

backoff_bounds_example :
    (backoff half 3 250 4_000 < 4_000) × (backoff half 3 250 4_000 < 250 * 2 ^ 3)
backoff_bounds_example = backoff_bounds half 3 250 4_000 (omega arith) (omega arith)

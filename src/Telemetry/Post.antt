-- ===== src/Telemetry/Post.antt =====
-- The request by which telemetry is sent: `client.post(endpoint, body, { retry: false, timeoutMs: 3_000 })`
-- in frontend/src/lib/errorReporter.ts and frontend/src/lib/webVitals.ts, and `post` of the client in
-- frontend/src/lib/api.ts.
use learn_pg.Prelude.{ℕ, zero, suc, ◌≡◌, false, none, some, [], String, arith}
use learn_pg.Api.Types.{Body, RequestOptions, Config, World, JsonResult, Run}
use learn_pg.Api.Client.{request}
use learn_pg.Api.Retry.{send_count, slept, outcome, EndsAt, request-EndsAt}

-- `{ ...options, method: 'POST', body }`
unfoldable pub post_options : Body → RequestOptions → RequestOptions
post_options body o = record o { method = some "POST"; body = some body }

unfoldable pub post : (String → JsonResult) → Config → String → Body → RequestOptions → World → Run
post parse_json cfg path body o world = request parse_json cfg path (post_options body o) world

unfoldable pub telemetry_options : RequestOptions
telemetry_options = record {
  method = none;
  body = none;
  timeout_ms = some 3_000;
  retry = some false;
  max_retries = none;
  headers = [];
}

abbrev Once : (String → JsonResult) → Config → String → Body → World → Run → Type 0
Once parse_json cfg path body world r =
    (send_count r.effects ≡ 1)
    × (slept r.effects ≡ 0)
    × (r.settled ≡ outcome parse_json cfg path (post_options body telemetry_options) (world 0))

ends-Once :
    (parse_json : String → JsonResult) (cfg : Config) (path : String) (body : Body) (world : World)
    (r : Run) (k : ℕ)
    → EndsAt parse_json cfg path (post_options body telemetry_options) world 0 k r
    → Once parse_json cfg path body world r
unfolding post_options telemetry_options
ends-Once parse_json cfg path body world r zero e = (omega (arith, e.4), omega (arith, e.5), e.7)
ends-Once parse_json cfg path body world r (suc k) e =
    absurd (cc (e.2 0 (omega arith) (omega arith)))

-- A telemetry request goes out exactly once, whatever becomes of it, and never waits.
pub post_once :
    (parse_json : String → JsonResult) (cfg : Config) (path : String) (body : Body) (world : World)
    → let r = post parse_json cfg path body telemetry_options world in
      (send_count r.effects ≡ 1)
      × (slept r.effects ≡ 0)
      × (r.settled ≡ outcome parse_json cfg path (post_options body telemetry_options) (world 0))
unfolding post post_options telemetry_options
post_once parse_json cfg path body world =
    let (k, ends) =
      request-EndsAt parse_json cfg path (post_options body telemetry_options) world in
    ends-Once parse_json cfg path body world _ k ends

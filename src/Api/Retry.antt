-- ===== src/Api/Retry.antt =====
-- When `request` of frontend/src/lib/api.ts retries, and what it costs.
use learn_pg.Prelude.{
  ℕ, zero, suc, ◌+◌, ◌*◌, ◌≤◌, ◌<◌, ◌≡◌, refl, sym, inl, inr, Bool, true, false, ◌&&◌, not, Option,
  none, some, List, ◌++◌, String, arith, Bool-cases, sum, sum-append, subst, All, All-append, ltb,
}
use native.Mathlib.Decide.{dec_le}
use learn_pg.Breadcrumbs.{Crumb}
use learn_pg.Backoff.{backoff-le}
use learn_pg.Api.Errors.{ApiError, retryable_status, is_retryable}
use learn_pg.Api.Types.{
  FetchOutcome, ok, http_error, network_error, run_fetch, Attempt, World, fetch_result, aborted,
  RequestOptions, Config, Effect, sends, sleeps, Settled, threw, JsonResult, Run, Round, finish,
  again,
}
use learn_pg.Api.Client.{
  parse_body, go_on_if, settle_round, retry_enabled, starts_with, waits, continue_round, max_of,
  http_api_error, network_api_error, round, loop, request,
}

abbrev send_of : Effect → ℕ
send_of (sends r) = 1
send_of _ = 0

-- How many requests went out.
abbrev pub send_count : List Effect → ℕ
send_count = sum send_of

-- How long an effect takes.
abbrev pub sleep_of : Effect → ℕ
sleep_of (sleeps ms) = ms
sleep_of _ = 0

-- How long the call waited between its attempts, in milliseconds.
abbrev pub slept : List Effect → ℕ
slept = sum sleep_of

-- A failure that another attempt may mend: a status that says so, or a network error that the caller
-- did not cause.
abbrev pub is_transient : Bool → FetchOutcome → Bool
is_transient cancelled (ok r body) = false
is_transient cancelled (http_error r body) = retryable_status r.status
is_transient cancelled (network_error e) = not cancelled

abbrev pub transient : Attempt → Bool
transient a = is_transient (aborted a) (run_fetch (fetch_result a))

module _ (parse_json : String → JsonResult) (cfg : Config) (path : String)
    (o : RequestOptions) where
  -- What an attempt alone would settle the call with.
  abbrev pub result_of : String → FetchOutcome → Settled
  result_of id (ok r body) = parse_body parse_json r body
  result_of id (http_error r body) = threw (http_api_error parse_json cfg path o id r body)
  result_of id (network_error e) = threw (network_api_error parse_json cfg path o id e)

  abbrev pub outcome : Attempt → Settled
  outcome a = result_of a.request_id (run_fetch (fetch_result a))

  -- No wait is longer than the largest backoff.
  abbrev pub ShortWaits : List Effect → Type 0
  ShortWaits = All (λ e. sleep_of e ≤ cfg.max_backoff_ms)

  abbrev RoundIs : Attempt → ℕ → FetchOutcome → Round → Type 0
  RoundIs a k f (finish es s) =
      (send_count es ≡ 1)
      × (slept es ≡ 0)
      × ShortWaits es
      × (s ≡ result_of a.request_id f)
      × ((retry_enabled o && ltb k (max_of cfg o) && is_transient (aborted a) f) ≡ false)
  RoundIs a k f (again es err) =
      (send_count es ≡ 1)
      × (slept es ≤ cfg.max_backoff_ms)
      × ShortWaits es
      × ((retry_enabled o && ltb k (max_of cfg o) && is_transient (aborted a) f) ≡ true)

  again_costs :
      (a : Attempt) (k : ℕ) (err : ApiError)
      → let es =
          starts_with parse_json cfg path o a.request_id k
          ++ waits parse_json cfg path o a.random k err in
        (send_count es ≡ 1) × (slept es ≤ cfg.max_backoff_ms) × ShortWaits es
  again_costs a k err = ground (arith, backoff-le a.random k cfg.base_backoff_ms cfg.max_backoff_ms)

  go_on_if-RoundIs :
      (a : Attempt) (k : ℕ) (f : FetchOutcome) (err : ApiError) (failed : Crumb)
      → result_of a.request_id f ≡ threw err
      → let retryable = retry_enabled o && ltb k (max_of cfg o) && is_transient (aborted a) f in
        RoundIs a k f (go_on_if parse_json cfg path o retryable a k err failed)
  go_on_if-RoundIs a k f err failed e =
      let retryable : Bool =
        retry_enabled o && ltb k (max_of cfg o) && is_transient (aborted a) f in
      elim (Bool-cases retryable) [
        | inl go ↦
            rw go ((again_costs a k err).0, (again_costs a k err).1, (again_costs a k err).2, go)
        | inr stop ↦ rw stop (refl, refl, ground arith, sym e, stop)
      ]

  settle_round-RoundIs :
      (a : Attempt) (k : ℕ) (f : FetchOutcome)
      → RoundIs a k f (settle_round parse_json cfg path o a k f)
  unfolding is_retryable http_api_error
  settle_round-RoundIs a k (ok r body) = (refl, refl, ground arith, refl, ground arith)
  settle_round-RoundIs a k (http_error r body) = go_on_if-RoundIs a k (http_error r body) _ _ refl
  settle_round-RoundIs a k (network_error e) = go_on_if-RoundIs a k (network_error e) _ _ refl

  -- Whether attempt `k` is followed by another.
  abbrev pub goes_on : Attempt → ℕ → Bool
  goes_on a k = retry_enabled o && ltb k (max_of cfg o) && transient a

  -- The call ends with attempt `k`, the first from `start` that is not followed by another.
  abbrev pub EndsAt : World → ℕ → ℕ → Run → Type 0
  EndsAt world start k r =
      (start ≤ k)
      × (k ≤ max_of cfg o)
      × ((j : ℕ) → start ≤ j → j < k → goes_on (world j) j ≡ true)
      × (goes_on (world k) k ≡ false)
      × (send_count r.effects + start ≡ k + 1)
      × (slept r.effects + start * cfg.max_backoff_ms ≤ k * cfg.max_backoff_ms)
      × ShortWaits r.effects
      × (r.settled ≡ outcome (world k))

  continue-EndsAt :
      (world : World) (start : ℕ) (f : FetchOutcome) (r : Round) (rest : ApiError → Run)
      → f ≡ run_fetch (fetch_result (world start))
      → start ≤ max_of cfg o
      → RoundIs (world start) start f r
      → ((err : ApiError)
          → goes_on (world start) start ≡ true
          → (k : ℕ) × EndsAt world (start + 1) k (rest err))
      → (k : ℕ) × EndsAt world start k (continue_round parse_json cfg path o r rest)
  continue-EndsAt world start f (finish es s) rest e low h ih = (
    start,
    (
      omega arith,
      low,
      (λ j p q. absurd (omega arith)),
      rw e at h.4,
      omega (arith, h.0),
      omega (arith, h.1),
      h.2,
      rw e at h.3,
    ),
  )
  continue-EndsAt world start f (again es err) rest e low h ih =
      let on : goes_on (world start) start ≡ true = rw e at h.3 in
      let (k, after) = ih err on in
      (
        k,
        (
          omega (arith, after.0),
          after.1,
          (λ j p q. elim (dec_le (start + 1) j) [
            | yes later ↦ after.2 j later q
            | no same ↦
                let here : start ≡ j = omega arith in
                subst (λ i. goes_on (world i) i ≡ true) here on
          ]),
          after.3,
          omega (arith, h.0, after.4, sum-append send_of es (rest err).effects),
          omega (arith, h.1, after.5, sum-append sleep_of es (rest err).effects),
          All-append (λ e. sleep_of e ≤ cfg.max_backoff_ms) es (rest err).effects h.2 after.6,
          after.7,
        ),
      )

  loop-EndsAt :
      (world : World) (rounds start : ℕ) (last : Option ApiError)
      → 0 < rounds
      → start + rounds ≡ max_of cfg o + 1
      → (k : ℕ) × EndsAt world start k (loop parse_json cfg path o world rounds start last)
  unfolding loop round
  loop-EndsAt world zero start last p e = absurd (omega arith)
  loop-EndsAt world (suc rounds) start last p e =
      let f : FetchOutcome = run_fetch (fetch_result (world start)) in
      continue-EndsAt world start f (settle_round parse_json cfg path o (world start) start f)
        (λ err. loop parse_json cfg path o world rounds (start + 1) (some err)) refl (omega arith)
        (settle_round-RoundIs (world start) start f)
        (λ err on.
          loop-EndsAt world rounds (start + 1) (some err)
            (let more : start < max_of cfg o = ground (arith, on) in omega arith) (omega arith))

  -- Every call settles, with what one of its attempts gave: the first that succeeds, that fails in a
  -- way not worth another attempt, or that is the last allowed. All attempts before it were enabled and
  -- failed transiently; as many requests go out as there were attempts, at most one more than the
  -- allowed retries, and no wait is longer than the largest backoff.
  pub request-EndsAt :
      (world : World) → (k : ℕ) × EndsAt world 0 k (request parse_json cfg path o world)
  unfolding request
  request-EndsAt world = loop-EndsAt world (max_of cfg o + 1) 0 none (omega arith) (omega arith)

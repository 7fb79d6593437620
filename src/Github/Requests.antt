-- ===== src/Github/Requests.antt =====
-- `Client::send` of src/github.rs with what it needs: a request, sent until it succeeds or three
-- attempts failed, with the pauses between them.
pub mod Bounds
use vmfleet.Prelude.{
  ℕ, zero, suc, ◌*◌, ◌-◌, ◌++◌, min, List, [], ◌∷◌, Bool, true, false, ◌||◌, Option, none, some,
  Result, ok, err, if◌then◌else◌, leb, ◌==◌, and_then,
}
use vmfleet.Prelude.Text.{Text, codes, text_eq}
use vmfleet.Prelude.Words.{trim, trim_end_matches}
use vmfleet.Prelude.Decimal.{parse_u64}
use vmfleet.Prelude.Act.{◌>>=◌, ◌>>◌, pure, fail}
use vmfleet.World.{
  System, Io, Failure, Reply, Response, response, refused, broken, http, http_status, transport,
  rate_limited, no_attempt, pause, wall_clock,
}
use vmfleet.Config.{GitHub, ConfigError, scope_path}

-- The fields of `Client` without the agent.
pub record Endpoint : Type 0 where
  pub token : Text
  pub api_base : Text
  pub scope : Text
  pub runner_group_id : ℕ
  pub is_repo : Bool

abbrev is_some : Option Text → Bool
is_some none = false
is_some (some t) = true

endpoint_of : GitHub → Text → Result ConfigError Text → Result ConfigError Endpoint
endpoint_of gh token (err e) = err e
endpoint_of gh token (ok scope) = ok (record {
  token = token;
  api_base = trim_end_matches b'/' gh.api_base;
  scope = scope;
  runner_group_id = gh.runner_group_id;
  is_repo = is_some gh.repo;
})

-- `Client::new`
unfoldable pub new_client : GitHub → Text → Result ConfigError Endpoint
unfolding endpoint_of
new_client gh token = endpoint_of gh token (scope_path gh)

unfoldable pub endpoint_url : Endpoint → Text → Text
endpoint_url e tail = e.api_base ++ b'/' ∷ (e.scope ++ b'/' ∷ tail)

abbrev pub retries : ℕ
retries = 3

abbrev parsed : Option Text → Option ℕ
parsed header = and_then header (λ s. parse_u64 (trim s))

abbrev exhausted : Option Text → Bool
exhausted none = false
exhausted (some s) = text_eq (trim s) (codes "0")

-- `.filter(|&w| w > 0).unwrap_or(2 * attempt).min(60)`
unfoldable pub backoff : ℕ → Option ℕ → ℕ
backoff attempt none = min (2 * attempt) 60
backoff attempt (some w) = min (if w == 0 then 2 * attempt else w) 60

module _ (sys : System) where
  until_reset : Option ℕ → Io (Option ℕ)
  until_reset none = pure none
  until_reset (some reset) = do t ← wall_clock sys; pure (some (reset - t))

  limit_wait : Response → Option ℕ → Io (Option ℕ)
  unfolding until_reset
  limit_wait r (some seconds) = pure (some seconds)
  limit_wait r none =
      if exhausted r.ratelimit_remaining then until_reset (parsed r.ratelimit_reset) else pure none

  unfoldable pub rate_limit_wait : Response → Io (Option ℕ)
  unfolding limit_wait
  rate_limit_wait r = limit_wait r (parsed r.retry_after)

  module _ (endpoint : Endpoint) (method url : Text) (body : Option Text) where
    -- One attempt's outcome; `again` makes the further attempts, given the error to report.
    answer : (Failure → Io Response) → ℕ → Reply → Io Response
    answer again attempt (response r) = pure r
    answer again attempt (refused r) =
        if r.code == 403 || r.code == 429
        then (do wait ← rate_limit_wait r; pause sys (backoff attempt wait); again rate_limited)
        else if leb 500 r.code
        then pause sys (2 * attempt) >> again (http_status r.code)
        else fail (http_status r.code)
    answer again attempt broken = pause sys (2 * attempt) >> again transport

    -- The attempts that are left, the number of the next one, and the last error.
    unfoldable pub attempts : ℕ → ℕ → Failure → Io Response
    unfolding answer
    attempts zero attempt last h = (err last, h)
    attempts (suc left) attempt last h =
        let h' = http method url (some endpoint.token) body ∷ h in
        answer (attempts left (suc attempt)) attempt (sys.on_http h') h'

    unfoldable pub send : Io Response
    unfolding attempts
    send = attempts retries 1 no_attempt

-- ===== src/Github/Requests/Bounds.antt =====
-- How much a request of src/github.rs costs: its calls, its pauses, and what it asks of the system.
use vmfleet.Prelude.{
  ℕ, zero, suc, ◌+◌, ◌*◌, ◌≤◌, ◌++◌, [], ◌∷◌, Option, none, some, ◌||◌, ◌==◌, leb, arith,
}
use vmfleet.Prelude.Text.{Text}
use vmfleet.Prelude.Act.{pure, Returns, Returns-if_call, Returns-after, if_call-after}
use vmfleet.World.{
  System, Io, History, transport, rate_limited, http_status, pause, wall_clock, Request, Failure,
  Reply, Response, response, refused, broken, http, sleep, read_wall_clock, no_attempt, Extends,
  unchanged, asked, Extends-trans,
}
use vmfleet.Github.Requests.{
  Endpoint, rate_limit_wait, limit_wait, until_reset, parsed, exhausted, answer, attempts, send,
  backoff, retries,
}

-- The calls of a server in a history.
abbrev call_cost : Request → ℕ
call_cost (http method url token body) = 1
call_cost r = 0

abbrev pub calls : History → ℕ
calls [] = 0
calls (r ∷ h) = call_cost r + calls h

-- The seconds that its pauses last.
abbrev pause_cost : Request → ℕ
pause_cost (sleep n) = n
pause_cost r = 0

abbrev pub waited : History → ℕ
waited [] = 0
waited (r ∷ h) = pause_cost r + waited h

-- At most `n` calls, and `s` seconds of pauses.
pub record Spends (n s : ℕ) (h h' : History) : Type 0 where
  pub few : calls h' ≤ calls h + n
  pub short : waited h' ≤ waited h + s

-- The requests of a client: calls with its token of URLs that start with its base, pauses of at
-- most a minute, and the time.
pub data Asks (endpoint : Endpoint) : Request → Type 0 where
  calls_base :
      (method rest : Text) (body : Option Text)
      → Asks endpoint (http method (endpoint.api_base ++ rest) (some endpoint.token) body)
  pauses : (n : ℕ) → n ≤ 60 → Asks endpoint (sleep n)
  looks : Asks endpoint read_wall_clock

-- The history grew by the time at most.
pub data Looked (h : History) : History → Type 0 where
  not_at_all : Looked h h
  once : Looked h (read_wall_clock ∷ h)

backoff-le : (attempt : ℕ) (w : Option ℕ) → backoff attempt w ≤ 60
unfolding backoff
backoff-le attempt none = omega arith
backoff-le attempt (some w) = omega arith

module _ (sys : System) where
  until_reset-Looked :
      (reset : Option ℕ) (h : History) → Returns (until_reset sys reset h) (λ _ h'. Looked h h')
  unfolding until_reset wall_clock
  until_reset-Looked none h = not_at_all
  until_reset-Looked (some t) h = once

  limit_wait-Looked :
      (r : Response) (w : Option ℕ) (h : History)
      → Returns (limit_wait sys r w h) (λ _ h'. Looked h h')
  unfolding limit_wait
  limit_wait-Looked r (some w) h = not_at_all
  limit_wait-Looked r none h =
      Returns-if_call (exhausted r.ratelimit_remaining) (until_reset sys (parsed r.ratelimit_reset))
        (pure none) h _ (until_reset-Looked (parsed r.ratelimit_reset) h) not_at_all

  rate_limit_wait-Looked :
      (r : Response) (h : History) → Returns (rate_limit_wait sys r h) (λ _ h'. Looked h h')
  unfolding rate_limit_wait
  rate_limit_wait-Looked r h = limit_wait-Looked r (parsed r.retry_after) h

  module _ (endpoint : Endpoint) (method url : Text) (body : Option Text) where
    -- Relations of the history before and after: from before a call with `n` attempts left, and
    -- from after a call with `n` further ones.
    record IsLoop (Open Shut : ℕ → History → History → Type 0) : Type 0 where
      over : (h : History) → Open 0 h h
      called :
          (n : ℕ) (h h' : History)
          → Shut n (http method url (some endpoint.token) body ∷ h) h'
          → Open (suc n) h h'
      stop : (n : ℕ) (h : History) → Shut n h h
      looked : (n : ℕ) (h h' : History) → Shut n (read_wall_clock ∷ h) h' → Shut n h h'
      paused : (n w : ℕ) (h h' : History) → w ≤ 60 → Open n (sleep w ∷ h) h' → Shut n h h'

    module _ (Open Shut : ℕ → History → History → Type 0) (loop : IsLoop Open Shut) where
      looks_then : (n : ℕ) (h h1 h2 : History) → Looked h h1 → Shut n h1 h2 → Shut n h h2
      looks_then n h h1 h2 not_at_all s = s
      looks_then n h h1 h2 once s = loop.looked n h h2 s

      answer-Shut :
          (n : ℕ) (again : Failure → Io Response)
          → ((e : Failure) (h : History) → Open n h (again e h).1)
          → (attempt : ℕ) → attempt ≤ 30
          → (reply : Reply) (h : History)
          → Shut n h (answer sys endpoint method url body again attempt reply h).1
      unfolding answer pause
      answer-Shut n again k attempt le (response r) h = loop.stop n h
      answer-Shut n again k attempt le broken h =
          loop.paused n (2 * attempt) h _ (omega arith) (k transport (sleep (2 * attempt) ∷ h))
      answer-Shut n again k attempt le (refused r) h =
          if_call-after (r.code == 403 || r.code == 429) _ _ h (Shut n h)
            (Returns-after (rate_limit_wait sys r h) _ (λ _ h1. Looked h h1) (Shut n h)
              (rate_limit_wait-Looked r h)
              (λ wait h1 l. looks_then n h h1 _ l (
                loop.paused n (backoff attempt wait) h1 _ (backoff-le attempt wait)
                  (k rate_limited (sleep (backoff attempt wait) ∷ h1)))))
            (if_call-after (leb 500 r.code) _ _ h (Shut n h)
              (loop.paused n (2 * attempt) h _ (omega arith)
                (k (http_status r.code) (sleep (2 * attempt) ∷ h)))
              (loop.stop n h))

      attempts-Open :
          (left attempt : ℕ)
          → left + attempt ≤ 30
          → (last : Failure) (h : History)
          → Open left h (attempts sys endpoint method url body left attempt last h).1
      unfolding attempts
      attempts-Open zero attempt le last h = loop.over h
      attempts-Open (suc left) attempt le last h =
          let h' = http method url (some endpoint.token) body ∷ h in
          loop.called left h _ (
            answer-Shut left (attempts sys endpoint method url body left (suc attempt))
              (attempts-Open left (suc attempt) (omega arith)) attempt (omega arith)
              (sys.on_http h') h')

      send-Open : (h : History) → Open retries h (send sys endpoint method url body h).1
      unfolding send
      send-Open h = attempts-Open retries 1 (omega arith) no_attempt h

    spending : IsLoop (λ n. Spends n (60 * n)) (λ n. Spends n (60 * suc n))
    spending = record {
      over = λ h. record { few = omega arith; short = omega arith };
      called = λ n h h' s. record { few = omega (arith, s.few); short = omega (arith, s.short) };
      stop = λ n h. record { few = omega arith; short = omega arith };
      looked = λ n h h' s. record { few = omega (arith, s.few); short = omega (arith, s.short) };
      paused =
          λ n w h h' le s. record { few = omega (arith, s.few); short = omega (arith, s.short) };
    }

    -- One request, with all its attempts, makes at most three calls and pauses for at most three
    -- minutes, however the server answers.
    pub send-Spends : (h : History) → Spends 3 180 h (send sys endpoint method url body h).1
    send-Spends h = send-Open _ _ spending h

  module _ (endpoint : Endpoint) (method rest : Text) (body : Option Text) where
    asking :
        IsLoop endpoint method
          (endpoint.api_base ++ rest)
          body
          (λ n. Extends (Asks endpoint))
          (λ n. Extends (Asks endpoint))
    asking = record {
      over = λ h. unchanged;
      called = λ n h h' e. Extends-trans (asked unchanged _ (calls_base method rest body)) e;
      stop = λ n h. unchanged;
      looked = λ n h h' e. Extends-trans (asked unchanged _ looks) e;
      paused = λ n w h h' le e. Extends-trans (asked unchanged _ (pauses w le)) e;
    }

    pub send-Asks :
        (h : History)
        → Extends (Asks endpoint) h (send sys endpoint method (endpoint.api_base ++ rest) body h).1
    send-Asks h = send-Open endpoint method (endpoint.api_base ++ rest) body _ _ asking h

    -- The first thing a request does is its call.
    pub send-first :
        (h : History)
        → Extends
            (Asks endpoint)
            (http method (endpoint.api_base ++ rest) (some endpoint.token) body ∷ h)
            (send sys endpoint method (endpoint.api_base ++ rest) body h).1
    unfolding send attempts
    send-first h =
        let url = endpoint.api_base ++ rest in
        let h' = http method url (some endpoint.token) body ∷ h in
        answer-Shut endpoint method url body _ _ asking 2
          (attempts sys endpoint method url body 2 2)
          (attempts-Open endpoint method url body _ _ asking 2 2 (omega arith)) 1 (omega arith)
          (sys.on_http h') h'

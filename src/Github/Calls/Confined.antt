-- ===== src/Github/Calls/Confined.antt =====
-- What the calls of the client in src/github.rs ask of the system.
pub mod Foreign
use vmfleet.Prelude.{
  ℕ, zero, suc, ◌+◌, ◌≤◌, ◌++◌, List, [], ◌∷◌, Bool, true, false, Option, none, some, Result, ok,
  err, ◌≡◌, refl, arith, inl, inr, Bool-cases, if◌then◌else◌, ltb, ◌==◌, sym, subst,
}
use vmfleet.Prelude.Text.{Text, codes, starts_with, starts_with-eq-true}
use vmfleet.Prelude.Decimal.{decimal}
use vmfleet.Prelude.Act.{◌>>◌, fail, if_call-after}
use vmfleet.World.{
  System, Io, History, Request, Failure, Reply, Response, response, refused, broken, http, pause,
  transport, http_status, bad_json, foreign_host, Extends, unchanged, asked, Extends-trans,
  Extends-mono, Extends-proceed,
}
use vmfleet.Github.{Runner, Client, IsRemote, Remote}
use vmfleet.Github.Requests.{Endpoint, endpoint_url, send, retries}
use vmfleet.Github.Requests.Bounds.{Asks, calls_base, pauses, looks, send-Asks}
use vmfleet.Github.Calls.{
  Json, Job, decoded, get_json, post_json, next_page, list_pages, list_runners, reachable,
  registration_token, generate_jitconfig, deleted, delete_attempts, delete_runner, jobs_tail,
  count_runs, count_page, ok_ids, queued_runs, queued_labels, client_of, next_link,
}

-- Every call of the client asks nothing but requests of the endpoint.
pub record IsConfined (endpoint : Endpoint) (client : Client) : Type 0 where
  pub probes : (h : History) → Extends (Asks endpoint) h (client.reachable h).1
  pub lists : (h : History) → Extends (Asks endpoint) h (client.list_runners h).1
  pub registers : (h : History) → Extends (Asks endpoint) h (client.registration_token h).1
  pub generates :
      (name : Text) (labels : List Text) (h : History)
      → Extends (Asks endpoint) h (client.generate_jitconfig name labels h).1
  pub counts : (h : History) → Extends (Asks endpoint) h (client.queued_labels h).1
  pub deletes : (id : ℕ) (h : History) → Extends (Asks endpoint) h (client.delete_runner id h).1

decoded-stays : {A : Type 0} (o : Option A) (h : History) → (decoded o h).1 ≡ h
decoded-stays none h = refl
decoded-stays (some a) h = refl

module _ (sys : System) (json : Json) (endpoint : Endpoint) where
  abbrev Stays : History → History → Type 0
  Stays h h' = Extends (Asks endpoint) h h'

  decoded-Stays : {A : Type 0} (o : Option A) (h : History) → Stays h (decoded o h).1
  decoded-Stays o h = rw (decoded-stays o h) unchanged

  get_json-Stays :
      {A : Type 0} (decode : Text → Option A) (tail : Text) (h : History)
      → Stays h (get_json sys json endpoint decode tail h).1
  unfolding get_json endpoint_url
  get_json-Stays decode tail h =
      let rest = b'/' ∷ (endpoint.scope ++ b'/' ∷ tail) in
      Extends-proceed (send sys endpoint (codes "GET") (endpoint.api_base ++ rest) none h) _
        (send-Asks sys endpoint (codes "GET") rest none h)
        (λ r h'. decoded-Stays (decode r.body) h')

  post_json-Stays :
      {A : Type 0} (decode : Text → Option A) (tail body : Text) (h : History)
      → Stays h (post_json sys json endpoint decode tail body h).1
  unfolding post_json endpoint_url
  post_json-Stays decode tail body h =
      let rest = b'/' ∷ (endpoint.scope ++ b'/' ∷ tail) in
      Extends-proceed (send sys endpoint (codes "POST") (endpoint.api_base ++ rest) (some body) h) _
        (send-Asks sys endpoint (codes "POST") rest (some body) h)
        (λ r h'. decoded-Stays (decode r.body) h')

  -- The URL starts with the base.
  abbrev Within : Text → Type 0
  Within url = (rest : Text) × (url ≡ endpoint.api_base ++ rest)

  send-Within :
      (url : Text)
      → Within url
      → (h : History) → Stays h (send sys endpoint (codes "GET") url none h).1
  send-Within url (rest, e) h = rw e (send-Asks sys endpoint (codes "GET") rest none h)

  next_page-Stays :
      (again : Text → Io (List Runner))
      → ((url : Text) (h : History) → Within url → Stays h (again url h).1)
      → (out : List Runner) (next : Option Text) (h : History)
      → Stays h (next_page sys json endpoint again out next h).1
  unfolding next_page
  next_page-Stays again k out none h = unchanged
  next_page-Stays again k out (some url) h = elim (Bool-cases (starts_with endpoint.api_base url)) [
    | inl own ↦ rw own (k url h (starts_with-eq-true endpoint.api_base url own))
    | inr foreign ↦ rw foreign unchanged
  ]

  list_pages-Stays :
      (pages : ℕ) (out : List Runner) (url : Text) (h : History)
      → Within url
      → Stays h (list_pages sys json endpoint pages out url h).1
  unfolding list_pages
  list_pages-Stays zero out url h w = unchanged
  list_pages-Stays (suc pages) out url h w =
      Extends-proceed (send sys endpoint (codes "GET") url none h) _ (send-Within url w h) (λ r h1.
        Extends-proceed (decoded (json.runners r.body) h1) _
          (decoded-Stays (json.runners r.body) h1)
          (λ page h2.
            next_page-Stays (list_pages sys json endpoint pages (out ++ page))
              (λ next h3. list_pages-Stays pages (out ++ page) next h3) (out ++ page)
              (next_link r.link) h2))

  list_runners-Stays :
      (pages : ℕ) (h : History) → Stays h (list_runners sys json endpoint pages h).1
  unfolding list_runners endpoint_url
  list_runners-Stays pages h = list_pages-Stays pages [] _ h (_, refl)

  reachable-Stays : (pages : ℕ) (h : History) → Stays h (reachable sys json endpoint pages h).1
  unfolding reachable
  reachable-Stays pages h =
      Extends-proceed (list_runners sys json endpoint pages h) _ (list_runners-Stays pages h)
        (λ _ h'. unchanged)

  paused-Stays :
      (again : Io (Unit {0}))
      → ((h : History) → Stays h (again h).1)
      → (b : Bool) (e : Failure) (h : History)
      → Stays h ((if b then pause sys 2 >> again else fail e) h).1
  unfolding pause
  paused-Stays again k b e h =
      if_call-after b _ _ h (Stays h)
        (Extends-trans (asked unchanged _ (pauses 2 (omega arith))) (k _)) unchanged

  deleted-Stays :
      (again : Io (Unit {0}))
      → ((h : History) → Stays h (again h).1)
      → (attempt : ℕ) (reply : Reply) (h : History)
      → Stays h (deleted sys json endpoint again attempt reply h).1
  unfolding deleted
  deleted-Stays again k attempt (response r) h = unchanged
  deleted-Stays again k attempt (refused r) h =
      if_call-after (r.code == 404) _ _ h (Stays h) unchanged
        (paused-Stays again k (ltb attempt retries) (http_status r.code) h)
  deleted-Stays again k attempt broken h = paused-Stays again k (ltb attempt retries) transport h

  delete_attempts-Stays :
      (left attempt : ℕ) (rest : Text) (h : History)
      → Stays h (delete_attempts sys json endpoint left attempt (endpoint.api_base ++ rest) h).1
  unfolding delete_attempts
  delete_attempts-Stays zero attempt rest h = unchanged
  delete_attempts-Stays (suc left) attempt rest h =
      let url = endpoint.api_base ++ rest in
      let h' = http (codes "DELETE") url (some endpoint.token) none ∷ h in
      Extends-trans (asked unchanged _ (calls_base (codes "DELETE") rest none)) (
        deleted-Stays (delete_attempts sys json endpoint left (suc attempt) url)
          (delete_attempts-Stays left (suc attempt) rest) attempt (sys.on_http h') h')

  delete_runner-Stays : (id : ℕ) (h : History) → Stays h (delete_runner sys json endpoint id h).1
  unfolding delete_runner endpoint_url
  delete_runner-Stays id h = delete_attempts-Stays retries 1 _ h

  count_runs-Stays :
      (out : List (Text × ℕ)) (ids : List ℕ) (h : History)
      → Stays h (count_runs sys json endpoint out ids h).1
  unfolding count_runs
  count_runs-Stays out [] h = unchanged
  count_runs-Stays out (id ∷ ids) h =
      Extends-trans (get_json-Stays json.jobs (jobs_tail sys json endpoint id) h) (
        count_runs-Stays
          (count_page out
            (get_json sys json endpoint json.jobs (jobs_tail sys json endpoint id) h).0)
          ids _)

  queued_runs-Stays : (b : Bool) (h : History) → Stays h (queued_runs sys json endpoint b h).1
  unfolding queued_runs
  queued_runs-Stays false h = unchanged
  queued_runs-Stays true h =
      let tail = codes "actions/runs?status=queued&per_page=30" in
      Extends-trans (get_json-Stays json.run_ids tail h) (
        count_runs-Stays []
          (ok_ids sys json endpoint (get_json sys json endpoint json.run_ids tail h).0) _)

  -- Whatever the server answers, every request of the client is a call that carries its token to a
  -- URL that starts with its base, a reading of the time, or a pause of at most a minute; it
  -- touches nothing else.
  pub client_of-IsConfined : (pages : ℕ) → IsConfined endpoint (client_of sys json endpoint pages)
  unfolding client_of queued_labels registration_token generate_jitconfig
  client_of-IsConfined pages = record {
    probes = reachable-Stays pages;
    lists = list_runners-Stays pages;
    registers = λ h. post_json-Stays json.token _ _ h;
    generates = λ name labels h. post_json-Stays json.jit_config _ _ h;
    counts = queued_runs-Stays endpoint.is_repo;
    deletes = delete_runner-Stays;
  }

  asks_remote : (r : Request) → Asks endpoint r → Remote r
  asks_remote _ (calls_base method rest body) = Remote.calls method _ _ body
  asks_remote _ (pauses n le) = Remote.pauses n
  asks_remote _ looks = Remote.looks_at_wall

  -- The client meets the law of the interface that the other parts use it through.
  pub client_of-IsRemote : (pages : ℕ) → IsRemote (client_of sys json endpoint pages)
  client_of-IsRemote pages =
      let confined = client_of-IsConfined pages in
      record {
        lists = λ h. Extends-mono asks_remote (confined.lists h);
        deletes = λ id h. Extends-mono asks_remote (confined.deletes id h);
      }

-- ===== src/Github/Calls.antt =====
-- The calls of `Client` in src/github.rs, what they read from a server's answers, and the two
-- functions over a client.
pub mod Confined
pub mod Pages
pub mod Links
pub mod Deletion
use vmfleet.Prelude.{
  ℕ, zero, suc, ◌+◌, ◌%◌, ◌++◌, List, [], ◌∷◌, Bool, true, false, Option, none, some, Result, ok,
  err, if◌then◌else◌, ltb, ◌==◌, length, filter,
}
use vmfleet.Prelude.Text.{Text, codes, text_eq, starts_with, split, first_piece}
use vmfleet.Prelude.Words.{trim, trim_start_matches, trim_end_matches, has_text}
use vmfleet.Prelude.Decimal.{decimal, u32_mod}
use vmfleet.Prelude.Act.{◌>>=◌, ◌>>◌, pure, fail, lift}
use vmfleet.World.{
  System, Io, Total, Failure, History, Reply, Response, response, refused, broken, http,
  http_status, transport, bad_json, foreign_host, unfinished, config_failed, bad_token, pause,
}
use vmfleet.Config.{GitHub, ConfigError}
use vmfleet.Github.{Runner, Client}
use vmfleet.Github.Requests.{Endpoint, new_client, endpoint_url, retries, send}

-- A job of `queued_labels`.
pub record Job : Type 0 where
  pub status : Text
  pub labels : List Text

-- The reading of the server's answers as JSON, by serde, and the body of `generate_jitconfig`.
pub record Json : Type 0 where
  pub runners : Text → Option (List Runner)
  pub token : Text → Option Text
  pub jit_config : Text → Option Text
  pub run_ids : Text → Option (List ℕ)
  pub jobs : Text → Option (List Job)
  pub jit_body : Text → ℕ → List Text → Text

-- `.header("link")` to the URL of the next page.
link_target : Text → Text
link_target part = trim_end_matches b'>' (trim_start_matches b'<' (trim (first_piece b';' part)))

next_part : List Text → Option Text
unfolding link_target
next_part [] = none
next_part (part ∷ parts) =
    let rest = next_part parts in
    if has_text (codes "rel=\"next\"") part then some (link_target part) else rest

unfoldable pub next_link : Option Text → Option Text
unfolding next_part
next_link none = none
next_link (some link) = next_part (split b',' link)

-- `into_json`
abbrev pub decoded : {A : Type 0} → Option A → Io A
decoded none = fail bad_json
decoded (some a) = pure a

-- `*out.entry(l).or_insert(0) += 1`
unfoldable pub count_label : List (Text × ℕ) → Text → List (Text × ℕ)
count_label [] l = (l, 1) ∷ []
count_label ((name, n) ∷ out) l =
    let rest = (name, n) ∷ count_label out l in
    if text_eq name l then (name, (n + 1) % u32_mod) ∷ out else rest

unfoldable pub count_labels : List (Text × ℕ) → List Text → List (Text × ℕ)
unfolding count_label
count_labels out [] = out
count_labels out (l ∷ ls) = count_labels (count_label out l) ls

unfoldable pub count_jobs : List (Text × ℕ) → List Job → List (Text × ℕ)
unfolding count_labels
count_jobs out [] = out
count_jobs out (j ∷ js) =
    count_jobs (if text_eq j.status (codes "queued") then count_labels out j.labels else out) js

-- What `if let Ok(j)` counts.
abbrev pub count_page : List (Text × ℕ) → Result Failure (List Job) → List (Text × ℕ)
count_page out (err e) = out
count_page out (ok js) = count_jobs out js

module _ (sys : System) (json : Json) (endpoint : Endpoint) where
  unfoldable pub get_json : {A : Type 0} → (Text → Option A) → Text → Io A
  get_json decode tail = do
    r ← send sys endpoint (codes "GET") (endpoint_url endpoint tail) none
    decoded (decode r.body)

  unfoldable pub post_json : {A : Type 0} → (Text → Option A) → Text → Text → Io A
  post_json decode tail body = do
    r ← send sys endpoint (codes "POST") (endpoint_url endpoint tail) (some body)
    decoded (decode r.body)

  -- What follows a page: the next one, where its link starts with the base.
  next_page : (Text → Io (List Runner)) → List Runner → Option Text → Io (List Runner)
  next_page again out none = pure out
  next_page again out (some url) =
      if starts_with endpoint.api_base url then again url else fail (foreign_host url)

  -- The loop over the pages, for a number of them, from what was collected.
  unfoldable pub list_pages : ℕ → List Runner → Text → Io (List Runner)
  unfolding next_page
  list_pages zero out url h = (err unfinished, h)
  list_pages (suc pages) out url h =
      (send sys endpoint (codes "GET") url none >>= (λ r. decoded (json.runners r.body) >>= (λ page.
          next_page (list_pages pages (out ++ page)) (out ++ page) (next_link r.link))))
        h

  unfoldable pub list_runners : ℕ → Io (List Runner)
  unfolding list_pages
  list_runners pages =
      list_pages pages [] (endpoint_url endpoint (codes "actions/runners?per_page=100"))

  unfoldable pub reachable : ℕ → Io (Unit {0})
  unfolding list_runners
  reachable pages = do list_runners pages; pure tt

  unfoldable pub registration_token : Io Text
  unfolding post_json
  registration_token =
      post_json json.token (codes "actions/runners/registration-token") (codes "{}")

  unfoldable pub generate_jitconfig : Text → List Text → Io Text
  unfolding post_json
  generate_jitconfig name labels =
      post_json json.jit_config (codes "actions/runners/generate-jitconfig")
        (json.jit_body name endpoint.runner_group_id labels)

  -- One attempt's outcome; the error of the last one is reported.
  deleted : Io (Unit {0}) → ℕ → Reply → Io (Unit {0})
  deleted again attempt (response r) = pure tt
  deleted again attempt (refused r) =
      if r.code == 404
      then pure tt
      else if ltb attempt retries
      then pause sys 2 >> again
      else fail (http_status r.code)
  deleted again attempt broken =
      if ltb attempt retries then pause sys 2 >> again else fail transport

  unfoldable pub delete_attempts : ℕ → ℕ → Text → Io (Unit {0})
  unfolding deleted
  delete_attempts zero attempt url h = (ok tt, h)
  delete_attempts (suc left) attempt url h =
      let h' = http (codes "DELETE") url (some endpoint.token) none ∷ h in
      deleted (delete_attempts left (suc attempt) url) attempt (sys.on_http h') h'

  unfoldable pub delete_runner : ℕ → Io (Unit {0})
  unfolding delete_attempts
  delete_runner id =
      delete_attempts retries 1 (endpoint_url endpoint (codes "actions/runners/" ++ decimal id))

  jobs_tail : ℕ → Text
  jobs_tail id = codes "actions/runs/" ++ (decimal id ++ codes "/jobs?per_page=50")

  unfoldable pub count_runs : List (Text × ℕ) → List ℕ → Total (List (Text × ℕ))
  unfolding get_json jobs_tail
  count_runs out [] h = (out, h)
  count_runs out (id ∷ ids) h =
      let (page, h') = get_json json.jobs (jobs_tail id) h in
      count_runs (count_page out page) ids h'

  abbrev ok_ids : Result Failure (List ℕ) → List ℕ
  ok_ids (err e) = []
  ok_ids (ok ids) = ids

  queued_runs : Bool → Total (List (Text × ℕ))
  unfolding get_json count_runs
  queued_runs false h = ([], h)
  queued_runs true h =
      let (runs, h') = get_json json.run_ids (codes "actions/runs?status=queued&per_page=30") h in
      count_runs [] (ok_ids runs) h'

  unfoldable pub queued_labels : Total (List (Text × ℕ))
  unfolding queued_runs
  queued_labels = queued_runs endpoint.is_repo

  -- The client that the other parts call, whose listings have at most `pages` pages.
  unfoldable pub client_of : ℕ → Client
  client_of pages = record {
    reachable = reachable pages;
    list_runners = list_runners pages;
    registration_token = registration_token;
    generate_jitconfig = generate_jitconfig;
    queued_labels = queued_labels;
    delete_runner = delete_runner;
  }

-- `delete_runners_by_prefix`, after the listing: the runners that were deleted are counted.
unfoldable pub delete_counted : Client → ℕ → List Runner → Io ℕ
delete_counted client n [] h = (ok n, h)
delete_counted client n (r ∷ rs) h =
    (client.delete_runner r.id >> delete_counted client ((n + 1) % u32_mod) rs) h

unfoldable pub delete_runners_by_prefix : Client → Text → Io ℕ
unfolding delete_counted
delete_runners_by_prefix client prefix = do
  rs ← client.list_runners
  delete_counted client 0 (filter (λ r. starts_with prefix r.name) rs)

-- `check_token`; the length of a text in bytes is given.
module _ (sys : System) (json : Json) (byte_length : Text → ℕ) where
  check_endpoint : ℕ → Text → Result ConfigError Endpoint → Io (Unit {0})
  check_endpoint pages token (err e) = fail config_failed
  check_endpoint pages token (ok endpoint) = do
    reachable sys json endpoint pages
    if ltb (byte_length token) 8 then fail bad_token else pure tt

  unfoldable pub check_token : ℕ → GitHub → Text → Io (Unit {0})
  unfolding check_endpoint
  check_token pages gh token = check_endpoint pages token (new_client gh token)

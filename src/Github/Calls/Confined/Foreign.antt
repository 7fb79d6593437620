-- ===== src/Github/Calls/Confined/Foreign.antt =====
-- Which hosts the listing of src/github.rs takes for its own.
use vmfleet.Prelude.{ℕ, suc, ◌++◌, ◌∷◌, List, some, none, ok, ◌≡◌}
use vmfleet.Prelude.Text.{Text, codes, starts_with-append}
use vmfleet.World.{System, History, Response, http, Extends, Extends-proceed}
use vmfleet.Github.{Runner}
use vmfleet.Github.Requests.{Endpoint, endpoint_url, send}
use vmfleet.Github.Requests.Bounds.{Asks, send-first}
use vmfleet.Github.Calls.{Json, next_link, decoded, next_page, list_pages, list_runners}
use vmfleet.Github.Calls.Confined.{decoded-Stays, next_page-Stays, list_pages-Stays}

module _ (sys : System) (json : Json) (endpoint : Endpoint) where
  first_call :
      (pages : ℕ) (out : List Runner) (suffix : Text) (h : History)
      → Extends
          (Asks endpoint)
          (http (codes "GET") (endpoint.api_base ++ suffix) (some endpoint.token) none ∷ h)
          (list_pages sys json endpoint (suc pages) out (endpoint.api_base ++ suffix) h).1
  unfolding list_pages
  first_call pages out suffix h =
      let url = endpoint.api_base ++ suffix in
      Extends-proceed (send sys endpoint (codes "GET") url none h) _
        (send-first sys endpoint (codes "GET") suffix none h)
        (λ r h1.
          Extends-proceed (decoded (json.runners r.body) h1) _
            (decoded-Stays sys json endpoint (json.runners r.body) h1)
            (λ page h2.
              next_page-Stays sys json endpoint (list_pages sys json endpoint pages (out ++ page))
                (λ next h3. list_pages-Stays sys json endpoint pages (out ++ page) next h3)
                (out ++ page) (next_link r.link) h2))

  -- A host whose name only begins with the client's host is not told apart from it: whatever
  -- follows the base in the link of a first page, the listing sends the token to that URL, if it
  -- may read two pages or more.
  pub list_runners_foreign :
      (pages : ℕ) (suffix : Text) (h h1 : History) (r : Response) (page : List Runner)
      → send sys endpoint
          (codes "GET")
          (endpoint_url endpoint (codes "actions/runners?per_page=100"))
          none
          h
        ≡ (ok r, h1)
      → json.runners r.body ≡ some page
      → next_link r.link ≡ some (endpoint.api_base ++ suffix)
      → Extends
          (Asks endpoint)
          (http (codes "GET") (endpoint.api_base ++ suffix) (some endpoint.token) none ∷ h1)
          (list_runners sys json endpoint (suc (suc pages)) h).1
  unfolding list_runners list_pages next_page
  list_runners_foreign pages suffix h h1 r page sent parsed link = rw sent (
      rw parsed (
        rw link
          (rw (starts_with-append endpoint.api_base suffix) (first_call pages page suffix h1))))

-- ===== src/Tests/Server.antt =====
-- The client of src/github.rs against a server with two pages of runners.
use vmfleet.Prelude.{
  ℕ, [], ◌∷◌, ◌++◌, List, true, false, Option, some, none, ok, ◌≡◌, refl, if◌then◌else◌, ◌↔◌, ◌≤◌,
}
use vmfleet.Prelude.Text.{Text, codes, text_eq, split, starts_with, first_piece, Lacks-all}
use vmfleet.Prelude.Words.{trim, trim_start_matches, trim_end_matches, has_text}
use vmfleet.Prelude.Decimal.{decimal}
use vmfleet.Prelude.Act.{OnOk}
use vmfleet.World.{System, History, Reply, Response, response, broken, http, Extends}
use vmfleet.Github.{Runner}
use vmfleet.Github.Requests.{Endpoint, endpoint_url, send, attempts}
use vmfleet.Github.Requests.Bounds.{Asks, Spends, send-Spends}
use vmfleet.Github.Calls.{Json, next_link, client_of, list_runners, delete_runner, list_pages}
use vmfleet.Github.Calls.Confined.{IsConfined, client_of-IsConfined}
use vmfleet.Github.Calls.Confined.Foreign.{list_runners_foreign}
use vmfleet.Github.Calls.Pages.{Pages, list_runners-eq-ok}
use vmfleet.Github.Calls.Links.{next_header, next_link-next_header}
use vmfleet.Github.Calls.Deletion.{Deleted, delete_runner-Deleted}
use vmfleet.Tests.Sample.{host}

abbrev pub endpoint : Endpoint
endpoint = record {
  token = codes "secret";
  api_base = codes "https://api.github.com";
  scope = codes "repos/o/n";
  runner_group_id = 1;
  is_repo = true;
}

abbrev pub page : List Runner
page = record { id = 7; name = codes "r"; status = codes "online"; busy = false; labels = [] } ∷ []

abbrev pub json : Json
json = record {
  runners = λ t. some page;
  token = λ t. some t;
  jit_config = λ t. some t;
  run_ids = λ t. some (1 ∷ []);
  jobs = λ t. none;
  jit_body = λ name group labels. name;
}

abbrev first_url : Text
first_url = endpoint_url endpoint (codes "actions/runners?per_page=100")

abbrev linking : Option Text → Response
linking link = record {
  code = 200;
  retry_after = none;
  ratelimit_remaining = none;
  ratelimit_reset = none;
  link = link;
  body = [];
}

-- The first page links to a URL, the other pages to none.
abbrev serve : Text → History → Reply
serve next [] = broken
serve next (http method url token body ∷ h) =
    if text_eq url first_url
    then response (linking (some (next_header next)))
    else response (linking none)
serve next (r ∷ h) = broken

abbrev serving : Text → System
serving next = record host { on_http = serve next }

abbrev suffix : Text
suffix = codes ".evil.org/x"

abbrev foreign : Text
foreign = codes "https://api.github.com.evil.org/x"

abbrev second : Text
second = codes "https://api.github.com/x?page=2"

send-Spends_example :
    Spends 3 180 [] (send (serving second) endpoint (codes "GET") second none []).1
send-Spends_example = send-Spends (serving second) endpoint (codes "GET") second none []

client_of-IsConfined_example : IsConfined endpoint (client_of (serving second) json endpoint 5)
client_of-IsConfined_example = client_of-IsConfined (serving second) json endpoint 5

next_link-next_header_example : next_link (some (next_header second)) ≡ some second
next_link-next_header_example =
    next_link-next_header second (Lacks-all b'<' second (unfold codes in refl))
      (Lacks-all b'>' second (unfold codes in refl)) (Lacks-all b';' second (unfold codes in refl))
      (Lacks-all b',' second (unfold codes in refl))

delete_runner-Deleted_example : OnOk (delete_runner (serving second) json endpoint 7 []) (λ _ h.
    Deleted
      (serving second)
      json
      endpoint
      (endpoint_url endpoint (codes "actions/runners/" ++ decimal 7))
      h)
delete_runner-Deleted_example = delete_runner-Deleted (serving second) json endpoint 7 []

abbrev asked_once : History
asked_once = http (codes "GET") first_url (some endpoint.token) none ∷ []

link_foreign : next_link (some (next_header foreign)) ≡ some (endpoint.api_base ++ suffix)
unfolding codes
link_foreign =
    next_link-next_header foreign (Lacks-all b'<' foreign (unfold codes in refl))
      (Lacks-all b'>' foreign (unfold codes in refl))
      (Lacks-all b';' foreign (unfold codes in refl))
      (Lacks-all b',' foreign (unfold codes in refl))

served :
    send (serving foreign) endpoint (codes "GET") first_url none []
    ≡ (ok (linking (some (next_header foreign))), asked_once)
unfolding send attempts codes endpoint_url text_eq
served = refl

list_runners_foreign_example :
    Extends
      (Asks endpoint)
      (http (codes "GET") (endpoint.api_base ++ suffix) (some endpoint.token) none ∷ asked_once)
      (list_runners (serving foreign) json endpoint 2 []).1
list_runners_foreign_example =
    list_runners_foreign (serving foreign) json endpoint 0 suffix [] asked_once
      (linking (some (next_header foreign))) page served refl link_foreign

list_runners-eq-ok_example :
    (list_runners (serving second) json endpoint 5 []
      ≡ (ok (page ++ page), http (codes "GET") second (some endpoint.token) none ∷ asked_once))
    ↔ ((n : ℕ) × (n ≤ 5)
        × Pages
            (serving second)
            json
            endpoint
            n
            first_url
            []
            (page ++ page)
            (http (codes "GET") second (some endpoint.token) none ∷ asked_once))
list_runners-eq-ok_example =
    list_runners-eq-ok (serving second) json endpoint 5 [] (page ++ page)
      (http (codes "GET") second (some endpoint.token) none ∷ asked_once)

-- The pages are read one after another.
two_pages :
    list_runners (serving second) json endpoint 5 []
    ≡ (ok (page ++ page), http (codes "GET") second (some endpoint.token) none ∷ asked_once)
unfolding list_runners list_pages send attempts codes endpoint_url text_eq next_link has_text trim
    first_piece split starts_with trim_start_matches trim_end_matches
two_pages = refl

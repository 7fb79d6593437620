-- ===== src/Github/Calls/Pages.antt =====
-- The listing of the runners in src/github.rs against the pages that a server returns.
use vmfleet.Prelude.{
  ℕ, zero, suc, ◌≤◌, ◌++◌, List, [], true, Option, none, some, ok, ◌≡◌, ◌↔◌, refl, sym, ap, ◌∙◌,
  arith, inl, inr, Bool-cases, subst,
}
use mathlib.Core.List.{append_assoc}
use vmfleet.Prelude.Text.{Text, codes, starts_with}
use vmfleet.Prelude.Act.{proceed, proceed-eq-ok, ok-inj}
use vmfleet.World.{System, History, Response}
use vmfleet.Github.{Runner}
use vmfleet.Github.Requests.{Endpoint, endpoint_url, send}
use vmfleet.Github.Calls.{Json, next_link, decoded, next_page, list_pages, list_runners}

module _ (sys : System) (json : Json) (endpoint : Endpoint) where
  -- From `url`, and from the first history to the second one, the server returned that many pages
  -- with those runners: each names the next one by a link that starts with the base, the last one
  -- none.
  pub data Pages : ℕ → Text → History → List Runner → History → Type 0 where
    last :
        {url : Text} {h h' : History} {page : List Runner} (r : Response)
        → send sys endpoint (codes "GET") url none h ≡ (ok r, h')
        → json.runners r.body ≡ some page
        → next_link r.link ≡ none
        → Pages 1 url h page h'
    more :
        {n : ℕ} {url next : Text} {h h1 h' : History} {page rest : List Runner} (r : Response)
        → send sys endpoint (codes "GET") url none h ≡ (ok r, h1)
        → json.runners r.body ≡ some page
        → next_link r.link ≡ some next
        → starts_with endpoint.api_base next ≡ true
        → Pages n next h1 rest h'
        → Pages (suc n) url h (page ++ rest) h'

  -- What a listing that goes on from `url` finds.
  abbrev Found : ℕ → List Runner → Text → History → List Runner → History → Type 0
  Found pages out url h rs h' =
      (n : ℕ) × (got : List Runner) × (n ≤ pages) × (rs ≡ out ++ got) × Pages n url h got h'

  module _ (pages : ℕ) (out : List Runner) (url : Text) (h : History) where
    from_next :
        {h1 h' : History} {page rs : List Runner} (r : Response)
        → ((next : Text)
            → list_pages sys json endpoint pages (out ++ page) next h1 ≡ (ok rs, h')
            → Found pages (out ++ page) next h1 rs h')
        → send sys endpoint (codes "GET") url none h ≡ (ok r, h1)
        → json.runners r.body ≡ some page
        → (next : Option Text) → next_link r.link ≡ next
        → next_page sys json endpoint
            (list_pages sys json endpoint pages (out ++ page))
            (out ++ page)
            next
            h1
          ≡ (ok rs, h')
        → Found (suc pages) out url h rs h'
    unfolding next_page
    from_next {page} r ih sent parsed none end e =
        let (all, same) = ok-inj e in
        (
          1,
          page,
          omega arith,
          sym all,
          subst (λ h'. Pages 1 url h page h') same (last r sent parsed end),
        )
    from_next {page} r ih sent parsed (some next) link e =
        elim (Bool-cases (starts_with endpoint.api_base next)) [
          | inl own ↦
              let (n, got, le, split, found) = ih next (rw own at e) in
              (
                suc n,
                page ++ got,
                omega arith,
                split ∙ append_assoc out page got,
                more r sent parsed link own found,
              )
          | inr foreign ↦ let no = rw foreign at e in cc
        ]

    from_page :
        {h1 h' : History} {rs : List Runner} (r : Response)
        → ((page : List Runner) (next : Text)
            → list_pages sys json endpoint pages (out ++ page) next h1 ≡ (ok rs, h')
            → Found pages (out ++ page) next h1 rs h')
        → send sys endpoint (codes "GET") url none h ≡ (ok r, h1)
        → (o : Option (List Runner)) → json.runners r.body ≡ o
        → proceed (decoded o h1) (λ page.
          next_page sys json endpoint
            (list_pages sys json endpoint pages (out ++ page))
            (out ++ page)
            (next_link r.link))
          ≡ (ok rs, h')
        → Found (suc pages) out url h rs h'
    from_page r ih sent none parsed e = cc
    from_page r ih sent (some page) parsed e =
        from_next r (ih page) sent parsed (next_link r.link) refl e

  sound :
      (pages : ℕ) (out : List Runner) (url : Text) (h : History) {rs : List Runner} {h' : History}
      → list_pages sys json endpoint pages out url h ≡ (ok rs, h')
      → Found pages out url h rs h'
  unfolding list_pages
  sound zero out url h e = cc
  sound (suc pages) out url h e =
      let (r, h1, sent, e1) = proceed-eq-ok (send sys endpoint (codes "GET") url none h) _ e in
      from_page pages out url h r (λ page next. sound pages (out ++ page) next h1) sent
        (json.runners r.body) refl e1

  complete :
      {n : ℕ} {url : Text} {h h' : History} {got : List Runner}
      → Pages n url h got h'
      → (pages : ℕ) (out : List Runner) → n ≤ pages
      → list_pages sys json endpoint pages out url h ≡ (ok (out ++ got), h')
  unfolding list_pages next_page
  complete (last r sent parsed end) zero out le = absurd (omega arith)
  complete (more r sent parsed next own rest) zero out le = absurd (omega arith)
  complete (last r sent parsed end) (suc pages) out le = rw sent (rw parsed (rw end refl))
  complete {h'} (more {page} r sent parsed next own rest) (suc pages) out le = rw sent (
      rw parsed (
        rw next (
          rw own (
            complete rest pages (out ++ page) (omega arith)
            ∙ ap (λ all. (ok all, h')) (append_assoc out page _)))))

  -- A listing succeeds with the runners of the pages that the server returns one after another, in
  -- their order, each linked by the one before under the client's base: it returns these whenever
  -- there are at most `pages` of them, and returns nothing else.
  pub list_runners-eq-ok :
      (pages : ℕ) (h : History) (rs : List Runner) (h' : History)
      → (list_runners sys json endpoint pages h ≡ (ok rs, h')) ↔ (
          (n : ℕ) × (n ≤ pages)
          × Pages n (endpoint_url endpoint (codes "actions/runners?per_page=100")) h rs h')
  unfolding list_runners
  list_runners-eq-ok pages h rs h' =
      let url = endpoint_url endpoint (codes "actions/runners?per_page=100") in
      (
        λ e.
            let (n, got, le, same, found) = sound pages [] url h e in
            (n, le, subst (λ all. Pages n url h all h') (sym same) found),
        λ (n, le, found). complete found pages [] le,
      )

-- ===== src/Github/Calls/Deletion.antt =====
-- What a deletion of a runner in src/github.rs promises.
use vmfleet.Prelude.{
  ℕ, zero, suc, ◌+◌, ◌++◌, ◌∷◌, true, false, some, none, ◌≡◌, refl, arith, sym, subst, Bool,
  if◌then◌else◌, ltb, ◌==◌,
}
use vmfleet.Prelude.Text.{Text, codes}
use vmfleet.Prelude.Decimal.{decimal}
use vmfleet.Prelude.Act.{OnOk}
use vmfleet.World.{System, Io, History, Reply, Response, response, refused, broken, http, pause}
use vmfleet.Github.Requests.{Endpoint, endpoint_url, retries}
use vmfleet.Github.Calls.{Json, deleted, delete_attempts, delete_runner}

-- The answers to a deletion after which the runner is gone.
pub data Gone : Reply → Type 0 where
  gone_now : (r : Response) → Gone (response r)
  gone_before : (r : Response) → r.code ≡ 404 → Gone (refused r)

module _ (sys : System) (json : Json) (endpoint : Endpoint) where
  -- The last request was the call, and its answer says that the runner is gone.
  abbrev pub Deleted : Text → History → Type 0
  Deleted url h =
      (before : History) × (h ≡ http (codes "DELETE") url (some endpoint.token) none ∷ before)
      × Gone (sys.on_http h)

  if_call-OnOk :
      (b : Bool) (m k : Io (Unit {0})) (h : History) (P : History → Type 0)
      → (b ≡ true → OnOk (m h) (λ _ h'. P h'))
      → (b ≡ false → OnOk (k h) (λ _ h'. P h'))
      → OnOk ((if b then m else k) h) (λ _ h'. P h')
  if_call-OnOk true m k h P p q = p refl
  if_call-OnOk false m k h P p q = q refl

  module _ (url : Text) where
    -- The attempts that are left and the number of the next one make four; only after the last
    -- attempt does the loop end.
    deleted-Deleted :
        (again : Io (Unit {0})) (attempt : ℕ)
        → (ltb attempt retries ≡ true → (h : History) → OnOk (again h) (λ _ h'. Deleted url h'))
        → (before : History) (reply : Reply)
        → sys.on_http (http (codes "DELETE") url (some endpoint.token) none ∷ before) ≡ reply
        → OnOk
            (deleted sys json endpoint again attempt reply
              (http (codes "DELETE") url (some endpoint.token) none ∷ before))
            (λ _ h'. Deleted url h')
    unfolding deleted pause
    deleted-Deleted again attempt k before (response r) e =
        (before, refl, subst Gone (sym e) (gone_now r))
    deleted-Deleted again attempt k before broken e =
        if_call-OnOk (ltb attempt retries) _ _ _ (Deleted url) (λ lt. k lt _) (λ _. tt)
    deleted-Deleted again attempt k before (refused r) e =
        if_call-OnOk (r.code == 404) _ _ _ (Deleted url)
          (λ is. (before, refl, subst Gone (sym e) (gone_before r (ground arith))))
          (λ _. if_call-OnOk (ltb attempt retries) _ _ _ (Deleted url) (λ lt. k lt _) (λ _. tt))

    delete_attempts-Deleted :
        (left attempt : ℕ)
        → suc left + attempt ≡ 4
        → (h : History)
        → OnOk (delete_attempts sys json endpoint (suc left) attempt url h) (λ _ h'. Deleted url h')
    unfolding delete_attempts
    delete_attempts-Deleted zero attempt e h =
        deleted-Deleted _ attempt (λ lt. absurd (ground arith)) h _ refl
    delete_attempts-Deleted (suc left) attempt e h =
        deleted-Deleted _ attempt
          (λ lt h'. delete_attempts-Deleted left (suc attempt) (omega arith) h') h _ refl

  -- Where a deletion succeeds, the last thing it did was to tell the server to delete that runner,
  -- and the server answered that it did or that it knows no such runner (404).
  pub delete_runner-Deleted :
      (id : ℕ) (h : History)
      → OnOk
          (delete_runner sys json endpoint id h)
          (λ _ h'. Deleted (endpoint_url endpoint (codes "actions/runners/" ++ decimal id)) h')
  unfolding delete_runner
  delete_runner-Deleted id h = delete_attempts-Deleted _ 2 1 refl h

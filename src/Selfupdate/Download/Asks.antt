-- ===== src/Selfupdate/Download/Asks.antt =====
-- Which requests the downloads of src/selfupdate.rs make.
use mathlib.Core.List.{append_assoc}
use vmfleet.Prelude.{
  ℕ, zero, suc, ◌*◌, ◌++◌, [], ◌∷◌, Bool, true, false, ◌||◌, Option, none, some, Result, ok, err,
  leb, ◌==◌, subst, sym, ◌≡◌,
}
use vmfleet.Prelude.Text.{Text, codes, text_eq}
use vmfleet.Prelude.Act.{if_call-after}
use vmfleet.World.{
  System, Io, History, Request, Failure, Reply, Response, response, refused, broken, http,
  http_status, transport, no_attempt, bad_json, bad_release, bad_checksum, io_failed, pause, change,
  write_file, rename_file, sleep, Extends, unchanged, asked, Extends-trans, Extends-proceed,
  Extends-proceed_by,
}
use vmfleet.Selfupdate.Version.{Asset, pick_newest}
use vmfleet.Selfupdate.Names.{parse_sha256, part_of}
use vmfleet.Selfupdate.Download.{
  ReleaseJson, decoded, get_answer, get_attempts, send_get, get_text, done_or, stream_to_file,
  from_api, or_from_api, download_asset, or_text, checksum_text, fetch_sha256, get_json,
  releases_url, fetch_release,
}

-- The requests for a URL.
abbrev pub get : Text → Option Text → Request
get url token = http (codes "GET") url token none

-- A response that a request for a URL was answered with.
abbrev pub IsFetched : System → Response → Type 0
IsFetched sys r =
    (url : Text) × (token : Option Text) × (h h' : History) × (send_get sys url token h
      ≡ (ok r, h'))

pub decoded-stays :
    {A : Type 0} (P : Request → Type 0) (o : Option A) (e : Failure) (h : History)
    → Extends P h (decoded o e h).1
decoded-stays P none e h = unchanged
decoded-stays P (some a) e h = unchanged

-- For a set of requests that holds the pauses.
module _ (sys : System) (P : Request → Type 0) (pauses : (n : ℕ) → P (sleep n)) where
  abbrev Keeps : {A : Type 0} → Io A → Type 0
  Keeps m = (h : History) → Extends P h (m h).1

  pub done_or-Keeps : (e : Failure) (b : Bool) → Keeps (done_or sys e b)
  unfolding done_or
  done_or-Keeps e true h = unchanged
  done_or-Keeps e false h = unchanged

  get_answer-Keeps :
      (again : Failure → Io Response)
      → ((e : Failure) → Keeps (again e))
      → (attempt : ℕ) (reply : Reply) → Keeps (get_answer sys again attempt reply)
  unfolding get_answer pause
  get_answer-Keeps again k attempt (response r) h = unchanged
  get_answer-Keeps again k attempt (refused r) h =
      if_call-after (leb 500 r.code || r.code == 429) _ _ h (Extends P h)
        (Extends-trans (asked unchanged _ (pauses (2 * attempt))) (k (http_status r.code) _))
        unchanged
  get_answer-Keeps again k attempt broken h =
      Extends-trans (asked unchanged _ (pauses (2 * attempt))) (k transport _)

  module _ (url : Text) (token : Option Text) (allowed : P (get url token)) where
    get_attempts-Keeps :
        (left attempt : ℕ) (last : Failure) → Keeps (get_attempts sys url token left attempt last)
    unfolding get_attempts
    get_attempts-Keeps zero attempt last h = unchanged
    get_attempts-Keeps (suc left) attempt last h =
        Extends-trans (asked unchanged (get url token) allowed) (
          get_answer-Keeps (get_attempts sys url token left (suc attempt))
            (get_attempts-Keeps left (suc attempt)) attempt (sys.on_http (get url token ∷ h)) _)

    send_get-Keeps : Keeps (send_get sys url token)
    unfolding send_get
    send_get-Keeps = get_attempts-Keeps 3 1 no_attempt

    get_text-Keeps : Keeps (get_text sys url token)
    unfolding get_text
    get_text-Keeps h =
        Extends-proceed (send_get sys url token h) _ (send_get-Keeps h) (λ _ _. unchanged)

    get_json-Keeps : {A : Type 0} (decode : Text → Option A) → Keeps (get_json sys decode url token)
    unfolding get_json
    get_json-Keeps decode h =
        Extends-proceed (send_get sys url token h) _ (send_get-Keeps h)
          (λ r h'. decoded-stays P (decode r.body) bad_json h')

    stream_to_file-Keeps :
        (dest : Text)
        → ((r : Response) → IsFetched sys r → P (write_file (part_of dest) r.body))
        → P (rename_file (part_of dest) dest)
        → Keeps (stream_to_file sys url token dest)
    unfolding stream_to_file change
    stream_to_file-Keeps dest writes renames h =
        Extends-proceed_by (send_get sys url token h) _ (send_get-Keeps h) (λ r h1 e.
          let h2 = write_file (part_of dest) r.body ∷ h1 in
          Extends-trans (asked unchanged _ (writes r (url, token, h, h1, e))) (
            Extends-proceed (done_or sys io_failed (sys.on_write h2) h2) _
              (done_or-Keeps io_failed (sys.on_write h2) h2)
              (λ _ h3. Extends-trans (asked unchanged _ renames) (done_or-Keeps io_failed _ _))))

  from_api_with :
      (asset : Asset) (token : Option Text)
      → P (get asset.url token)
      → (dest : Text) → ((r : Response) → IsFetched sys r → P (write_file (part_of dest) r.body))
      → P (rename_file (part_of dest) dest)
      → Keeps (from_api sys asset token dest)
  unfolding from_api
  from_api_with asset none private dest writes renames h = unchanged
  from_api_with asset (some t) private dest writes renames h =
      if_call-after (text_eq asset.url []) _ _ h (Extends P h) unchanged
        (stream_to_file-Keeps asset.url (some t) private dest writes renames h)

  module _ (asset : Asset) (token : Option Text) (public : P (get asset.browser_download_url none))
      (private : P (get asset.url token)) where
    module _ (dest : Text)
        (writes : (r : Response) → IsFetched sys r → P (write_file (part_of dest) r.body))
        (renames : P (rename_file (part_of dest) dest)) where
      from_api-Keeps : Keeps (from_api sys asset token dest)
      from_api-Keeps = from_api_with asset token private dest writes renames

      or_from_api-Keeps :
          (r : Result Failure (Unit {0})) → Keeps (or_from_api sys asset token dest r)
      unfolding or_from_api
      or_from_api-Keeps (ok _) h = unchanged
      or_from_api-Keeps (err e) h = from_api-Keeps h

      pub download_asset-Keeps : Keeps (download_asset sys asset token dest)
      unfolding download_asset
      download_asset-Keeps h =
          if_call-after (text_eq asset.browser_download_url []) _ _ h (Extends P h)
            (from_api-Keeps h)
            (Extends-trans
              (stream_to_file-Keeps asset.browser_download_url none public dest writes renames h)
              (or_from_api-Keeps (stream_to_file sys asset.browser_download_url none dest h).0 _))

    or_text-Keeps : (r : Result Failure Text) → Keeps (or_text sys asset token r)
    unfolding or_text
    or_text-Keeps (ok t) h = unchanged
    or_text-Keeps (err e) h = get_text-Keeps asset.url token private h

    pub fetch_sha256-Keeps : Keeps (fetch_sha256 sys asset token)
    unfolding fetch_sha256 checksum_text
    fetch_sha256-Keeps h =
        Extends-proceed (checksum_text sys asset token h) _
          (if_call-after (text_eq asset.browser_download_url []) _ _ h (Extends P h)
            (get_text-Keeps asset.url token private h)
            (Extends-trans (get_text-Keeps asset.browser_download_url none public h)
              (or_text-Keeps (get_text sys asset.browser_download_url none h).0 _)))
          (λ body h'. decoded-stays P (parse_sha256 body) bad_checksum h')

  module _ (json : ReleaseJson) (owner repo : Text) (token : Option Text)
      (allowed : (rest : Text)
        → P (get (codes "https://api.github.com/repos/" ++ rest) token)) where
    below_releases : (tail : Text) → P (get (releases_url sys owner repo ++ tail) token)
    unfolding releases_url
    below_releases tail =
        subst (λ url. P (get url token))
          (sym (
            append_assoc (codes "https://api.github.com/repos/")
              (owner ++ b'/' ∷ (repo ++ codes "/releases")) tail))
          (allowed ((owner ++ b'/' ∷ (repo ++ codes "/releases")) ++ tail))

    pub fetch_release-Keeps :
        (tag : Option Text) (prerelease : Bool)
        → Keeps (fetch_release sys json owner repo token tag prerelease)
    unfolding fetch_release
    fetch_release-Keeps (some tag) prerelease h =
        get_json-Keeps _ token (below_releases (codes "/tags/" ++ tag)) json.one h
    fetch_release-Keeps none true h =
        let url = releases_url sys owner repo ++ codes "?per_page=30" in
        Extends-proceed (get_json sys json.many url token h) _
          (get_json-Keeps url token (below_releases (codes "?per_page=30")) json.many h)
          (λ list h'. decoded-stays P (pick_newest list) bad_release h')
    fetch_release-Keeps none false h =
        get_json-Keeps _ token (below_releases (codes "/latest")) json.one h

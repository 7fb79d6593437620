-- ===== src/Selfupdate/Download.antt =====
-- The requests of src/selfupdate.rs: releases, checksums and archives.
pub mod Asks
use vmfleet.Prelude.{
  ℕ, zero, suc, ◌*◌, ◌++◌, List, [], ◌∷◌, Bool, true, false, ◌||◌, Option, none, some, Result, ok,
  err, if◌then◌else◌, leb, ◌==◌,
}
use vmfleet.Prelude.Text.{Text, codes, text_eq}
use vmfleet.Prelude.Act.{◌>>=◌, ◌>>◌, pure, fail, try_}
use vmfleet.World.{
  System, Io, Failure, Reply, Response, response, refused, broken, http, http_status, transport,
  no_attempt, bad_json, bad_release, bad_checksum, io_failed, pause, change, write_file,
  rename_file,
}
use vmfleet.Selfupdate.Version.{Asset, Release, pick_newest}
use vmfleet.Selfupdate.Names.{parse_sha256, part_of}

-- The reading of releases as JSON, by serde.
pub record ReleaseJson : Type 0 where
  pub one : Text → Option Release
  pub many : Text → Option (List Release)

abbrev pub decoded : {A : Type 0} → Option A → Failure → Io A
decoded none failure = fail failure
decoded (some a) failure = pure a

module _ (sys : System) where
  -- One attempt's outcome; `again` makes the further attempts, given the error to report.
  get_answer : (Failure → Io Response) → ℕ → Reply → Io Response
  get_answer again attempt (response r) = pure r
  get_answer again attempt (refused r) =
      if leb 500 r.code || r.code == 429
      then pause sys (2 * attempt) >> again (http_status r.code)
      else fail (http_status r.code)
  get_answer again attempt broken = pause sys (2 * attempt) >> again transport

  get_attempts : Text → Option Text → ℕ → ℕ → Failure → Io Response
  unfolding get_answer
  get_attempts url token zero attempt last h = (err last, h)
  get_attempts url token (suc left) attempt last h =
      let h' = http (codes "GET") url token none ∷ h in
      get_answer (get_attempts url token left (suc attempt)) attempt (sys.on_http h') h'

  unfoldable pub send_get : Text → Option Text → Io Response
  unfolding get_attempts
  send_get url token = get_attempts url token 3 1 no_attempt

  unfoldable pub get_text : Text → Option Text → Io Text
  get_text url token = do r ← send_get url token; pure r.body

  unfoldable pub done_or : Failure → Bool → Io (Unit {0})
  done_or failure true = pure tt
  done_or failure false = fail failure

  unfoldable pub stream_to_file : Text → Option Text → Text → Io (Unit {0})
  unfolding done_or
  stream_to_file url token dest = do
    r ← send_get url token
    written ← change sys (write_file (part_of dest) r.body)
    done_or io_failed written
    moved ← change sys (rename_file (part_of dest) dest)
    done_or io_failed moved

  -- The URL of the API for a private release, with the token.
  from_api : Asset → Option Text → Text → Io (Unit {0})
  unfolding stream_to_file
  from_api asset none dest = fail bad_release
  from_api asset (some token) dest =
      if text_eq asset.url [] then fail bad_release else stream_to_file asset.url (some token) dest

  or_from_api : Asset → Option Text → Text → Result Failure (Unit {0}) → Io (Unit {0})
  unfolding from_api
  or_from_api asset token dest (ok _) = pure tt
  or_from_api asset token dest (err e) = from_api asset token dest

  unfoldable pub download_asset : Asset → Option Text → Text → Io (Unit {0})
  unfolding or_from_api
  download_asset asset token dest =
      if text_eq asset.browser_download_url [] then from_api asset token dest else (do
        public ← try_ (stream_to_file asset.browser_download_url none dest)
        or_from_api asset token dest public)

  or_text : Asset → Option Text → Result Failure Text → Io Text
  unfolding get_text
  or_text asset token (ok t) = pure t
  or_text asset token (err e) = get_text asset.url token

  checksum_text : Asset → Option Text → Io Text
  unfolding or_text
  checksum_text asset token =
      if text_eq asset.browser_download_url []
      then get_text asset.url token
      else (do public ← try_ (get_text asset.browser_download_url none); or_text asset token public)

  unfoldable pub fetch_sha256 : Asset → Option Text → Io Text
  unfolding checksum_text
  fetch_sha256 asset token = do
    body ← checksum_text asset token
    decoded (parse_sha256 body) bad_checksum

  get_json : {A : Type 0} → (Text → Option A) → Text → Option Text → Io A
  get_json decode url token = do r ← send_get url token; decoded (decode r.body) bad_json

  releases_url : Text → Text → Text
  releases_url owner repo =
      codes "https://api.github.com/repos/" ++ (owner ++ b'/' ∷ (repo ++ codes "/releases"))

  -- `fetch_release`: by its tag, or the newest published one, or the latest stable one.
  unfoldable pub fetch_release :
      ReleaseJson → Text → Text → Option Text → Option Text → Bool → Io Release
  unfolding get_json releases_url
  fetch_release json owner repo token (some tag) prerelease =
      get_json json.one (releases_url owner repo ++ (codes "/tags/" ++ tag)) token
  fetch_release json owner repo token none true = do
    list ← get_json json.many (releases_url owner repo ++ codes "?per_page=30") token
    decoded (pick_newest list) bad_release
  fetch_release json owner repo token none false =
      get_json json.one (releases_url owner repo ++ codes "/latest") token

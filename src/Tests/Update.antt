-- ===== src/Tests/Update.antt =====
-- The update of src/selfupdate.rs on a host with a newer release.
use vmfleet.Prelude.{ℕ, [], ◌∷◌, ◌++◌, true, false, Option, some, none, map, ◌≡◌, refl}
use vmfleet.Prelude.Text.{Text, codes}
use vmfleet.Prelude.Decimal.{is_digit}
use vmfleet.World.{System, response, Extends}
use vmfleet.Selfupdate.Version.{Asset, Release}
use vmfleet.Selfupdate.Names.{is_hex, lower, same_letters, parse_sha256}
use vmfleet.Selfupdate.Names.Digest.{parse_sha256-line}
use vmfleet.Selfupdate.Choice.{Opts, Build}
use vmfleet.Selfupdate.Install.{self_update}
use vmfleet.Selfupdate.Install.Gated.{Does}
use vmfleet.Selfupdate.Install.Gated.Updates.{self_update-Does}
use vmfleet.Tests.Sample.{fleet, host}

abbrev digest : Text
digest = codes "0123456789abcdef0123456789abcdef0123456789ABCDEF0123456789abcdef"

abbrev archive : Asset
archive = record {
  name = codes "vmfleet-1.1.0-x86.tar.gz";
  browser_download_url = codes "https://github.com/o/n/a";
  url = codes "https://api.github.com/a";
}

abbrev checksum : Asset
checksum = record {
  name = codes "vmfleet-1.1.0-x86.tar.gz.sha256";
  browser_download_url = codes "https://github.com/o/n/s";
  url = codes "https://api.github.com/s";
}

abbrev newest : Release
newest = record { tag_name = codes "v1.1.0"; draft = false; assets = archive ∷ checksum ∷ [] }

abbrev build : Build ℕ
build = record {
  repository = codes "https://github.com/o/n";
  version = codes "1.0.0";
  target = codes "x86";
  exe = some (codes "/bin/vmfleet");
  json = record { one = λ t. some newest; many = λ t. none };
  config = λ t. some fleet;
  sha256 = λ t. digest;
  entries = λ t. some (some (codes "p/vmfleet", codes "program") ∷ []);
}

abbrev answering : System
answering = record host {
  on_http = λ h. response (record {
    code = 200;
    retry_after = none;
    ratelimit_remaining = none;
    ratelimit_reset = none;
    link = none;
    body = digest;
  });
  on_read = λ h. some (codes "archive");
}

abbrev opts : Opts
opts = record {
  check = false;
  tag = none;
  allow_prerelease = false;
  yes = true;
  no_restart = false;
}

abbrev no_env : Text → Option Text
no_env name = none

self_update-Does_example :
    Extends
      (Does answering build no_env opts (codes "/etc/vmfleet.toml"))
      []
      (self_update answering build no_env (codes "/etc/vmfleet.toml") opts []).1
self_update-Does_example =
    self_update-Does answering build no_env opts (codes "/etc/vmfleet.toml") []

parse_sha256-line_example :
    (parse_sha256 (digest ++ 32 ∷ 32 ∷ (codes "a.tar.gz" ++ 10 ∷ [])) ≡ some (map lower digest))
    × (same_letters (map lower digest) digest ≡ true)
parse_sha256-line_example =
    parse_sha256-line digest (codes "a.tar.gz") (unfold codes in refl)
      (unfold codes is_hex is_digit in refl)

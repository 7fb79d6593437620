-- ===== src/Selfupdate/Names/Digest.antt =====
-- The reading of checksum files in src/selfupdate.rs.
use vmfleet.Prelude.{
  ℕ, ◌++◌, [], ◌∷◌, true, not, some, ◌≡◌, refl, ap, arith, ◌==◌, length, all, map,
}
use vmfleet.Prelude.Text.{Text, text_eq_refl}
use vmfleet.Prelude.Words.{
  trim-all, split_whitespace, split_whitespace-word, is_whitespace, words_from,
}
use vmfleet.Prelude.Decimal.{is_digit}
use vmfleet.Selfupdate.Names.{is_hex, lower, same_letters, digest_of, parse_sha256}

is_hex-plain : (c : ℕ) → is_hex c ≡ true → not (is_whitespace c) ≡ true
unfolding is_hex is_digit is_whitespace
is_hex-plain c h = ground arith

all_plain : (d : Text) → all is_hex d ≡ true → all (λ c. not (is_whitespace c)) d ≡ true
all_plain [] h = refl
all_plain (c ∷ d) h = ground (arith, is_hex-plain c, all_plain d)

lower-lower : (c : ℕ) → lower (lower c) ≡ lower c
unfolding lower
lower-lower c = ground arith

map-lower : (d : Text) → map lower (map lower d) ≡ map lower d
map-lower [] = refl
map-lower (c ∷ d) = rw (lower-lower c) (ap (λ t. lower c ∷ t) (map-lower d))

-- What `sha256sum` prints for a file, the digest and the file's name, is read back as the digest in
-- small letters, which the comparison takes for the digest itself.
pub parse_sha256-line :
    (digest name : Text)
    → length digest ≡ 64
    → all is_hex digest ≡ true
    → (parse_sha256 (digest ++ 32 ∷ 32 ∷ (name ++ 10 ∷ [])) ≡ some (map lower digest))
      × (same_letters (map lower digest) digest ≡ true)
unfolding parse_sha256 digest_of same_letters
parse_sha256-line [] name size hex = absurd (omega arith)
parse_sha256-line (x ∷ d) name size hex =
    let plain = all_plain (x ∷ d) hex in
    let first : split_whitespace ((x ∷ d) ++ 32 ∷ 32 ∷ (name ++ 10 ∷ []))
        ≡ (x ∷ d) ∷ words_from [] (32 ∷ (name ++ 10 ∷ [])) =
      split_whitespace-word x d 32 (32 ∷ (name ++ 10 ∷ [])) plain (unfold is_whitespace in refl) in
    let sized : (length (x ∷ d) == 64) ≡ true = ground arith in
    (
      rw first (rw (trim-all (x ∷ d) plain) (rw sized (rw hex refl))),
      rw (map-lower (x ∷ d)) (text_eq_refl (map lower (x ∷ d))),
    )

-- ===== src/Github/Calls/Links.antt =====
-- The links between the pages of a listing in src/github.rs.
use mathlib.Core.List.{append_assoc}
use vmfleet.Prelude.{[], ◌∷◌, ◌++◌, some, ◌≡◌, refl, ap, ◌∙◌, arith}
use vmfleet.Prelude.Text.{Text, codes, split-Lacks, first_piece_lem, Lacks, Lacks-append, Lacks-all}
use vmfleet.Prelude.Words.{
  has_text-append, trim-keeps, trim_start_matches-cons, trim_end_matches-concat, is_whitespace,
}
use vmfleet.Github.Calls.{next_link, next_part, link_target}

abbrev bracketed : Text → Text
bracketed url = b'<' ∷ (url ++ b'>' ∷ [])

-- The header that links to a next page.
abbrev pub next_header : Text → Text
next_header url = (bracketed url ++ codes "; ") ++ codes "rel=\"next\""

link_target-bracketed :
    (url rest : Text)
    → Lacks b'<' url
    → Lacks b'>' url
    → Lacks b';' url
    → link_target (bracketed url ++ b';' ∷ rest) ≡ url
unfolding link_target
link_target-bracketed url rest lt gt semi =
    let whole : Lacks b';' (bracketed url) =
      (ground arith, Lacks-append b';' url (b'>' ∷ []) semi (ground arith, tt)) in
    rw (first_piece_lem b';' (bracketed url) rest whole) (
      rw (trim-keeps b'<' url b'>' (unfold is_whitespace in refl) (unfold is_whitespace in refl)) (
        rw
          (trim_start_matches-cons b'<' (url ++ b'>' ∷ [])
            (Lacks-append b'<' url (b'>' ∷ []) lt (ground arith, tt)))
          (trim_end_matches-concat b'>' url gt)))

-- A URL without commas, semicolons and angle brackets is read back from the link that names it.
pub next_link-next_header :
    (url : Text)
    → Lacks b'<' url
    → Lacks b'>' url
    → Lacks b';' url
    → Lacks b',' url
    → next_link (some (next_header url)) ≡ some url
unfolding next_link next_part codes
next_link-next_header url lt gt semi comma =
    let whole : Lacks b',' (next_header url) =
      Lacks-append b',' (bracketed url ++ codes "; ") (codes "rel=\"next\"")
        (Lacks-append b',' (bracketed url) (codes "; ")
          (ground arith, Lacks-append b',' url (b'>' ∷ []) comma (ground arith, tt))
          (Lacks-all b',' (codes "; ") refl))
        (Lacks-all b',' (codes "rel=\"next\"") refl) in
    rw (split-Lacks b',' (next_header url) whole) (
      rw (has_text-append (codes "rel=\"next\"") (bracketed url ++ codes "; ")) (
        ap (λ t. some (link_target t))
          (append_assoc (bracketed url) (codes "; ") (codes "rel=\"next\""))
        ∙ ap some (link_target-bracketed url (32 ∷ codes "rel=\"next\"") lt gt semi)))

-- ===== src/Prelude/Text.antt =====
-- Texts as lists of code points, with the standard library's operations that the program uses.
use Prim.Native.Char.{code}
use Prim.Native.String.{String}
use Prim.Native.Nat.{ℕ}
use mathlib.Core.Path.{◌≡◌, refl, ap, ◌∙◌}
use mathlib.Core.Logic.{◌↔◌, ◌≢◌}
use mathlib.Core.Bool.{Bool, true, false, not, ◌&&◌, ◌||◌}
use mathlib.Core.List.{List, [], ◌∷◌, ◌++◌, reverse, reverse-append, reverse-reverse}
use mathlib.Core.Option.{Option, none, some}
use mathlib.Core.Option
use native.Mathlib.Omega.{arith}
use vmfleet.Prelude.Lists.{all}
use vmfleet.Prelude.Tests.{◌==◌, if◌then◌else◌, leb}

abbrev pub Text : Type 0
Text = List ℕ

-- The code points of a literal. Shut, so that a constant stays one word in a goal.
unfoldable pub codes : String → Text
codes String.[] = []
codes (String.◌∷◌ c s) = code c ∷ codes s

-- `==` on texts
unfoldable pub text_eq : Text → Text → Bool
text_eq [] [] = true
text_eq [] (d ∷ t) = false
text_eq (c ∷ s) [] = false
text_eq (c ∷ s) (d ∷ t) = c == d && text_eq s t

text_eq_sound : (s t : Text) → text_eq s t ≡ true → s ≡ t
unfolding text_eq
text_eq_sound [] [] h = refl
text_eq_sound [] (d ∷ t) h = cc
text_eq_sound (c ∷ s) [] h = cc
text_eq_sound (c ∷ s) (d ∷ t) h = ground (arith, text_eq_sound s t)

pub text_eq_refl : (s : Text) → text_eq s s ≡ true
unfolding text_eq
text_eq_refl [] = refl
text_eq_refl (c ∷ s) = ground (arith, text_eq_refl s)

text_eq_complete : (s t : Text) → s ≡ t → text_eq s t ≡ true
text_eq_complete s t e = rw e (text_eq_refl t)

pub text_eq_iff : (s t : Text) → (text_eq s t ≡ true) ↔ (s ≡ t)
text_eq_iff s t = (text_eq_sound s t, text_eq_complete s t)

-- `strip_prefix`
unfoldable pub strip_prefix : Text → Text → Option Text
strip_prefix [] s = some s
strip_prefix (c ∷ p) [] = none
strip_prefix (c ∷ p) (d ∷ s) = let rest = strip_prefix p s in if c == d then rest else none

-- `starts_with`, the prefix first.
unfoldable pub starts_with : Text → Text → Bool
starts_with [] s = true
starts_with (c ∷ p) [] = false
starts_with (c ∷ p) (d ∷ s) = c == d && starts_with p s

-- `strip_suffix`, the suffix first.
unfoldable pub strip_suffix : Text → Text → Option Text
unfolding strip_prefix
strip_suffix p s = Option.map reverse (strip_prefix (reverse p) (reverse s))

-- `ends_with`, the suffix first.
unfoldable pub ends_with : Text → Text → Bool
unfolding starts_with
ends_with p s = starts_with (reverse p) (reverse s)

abbrev cons_head : ℕ → List Text → List Text
cons_head c [] = (c ∷ []) ∷ []
cons_head c (p ∷ ps) = (c ∷ p) ∷ ps

-- `split(sep)`: the pieces between the separators, at least one.
unfoldable pub split : ℕ → Text → List Text
split sep [] = [] ∷ []
split sep (c ∷ s) = let rest = split sep s in if c == sep then [] ∷ rest else cons_head c rest

-- `split(sep).next()`, which never fails.
abbrev pub head_or_nil : List Text → Text
head_or_nil [] = []
head_or_nil (p ∷ ps) = p

unfoldable pub first_piece : ℕ → Text → Text
unfolding split
first_piece sep s = head_or_nil (split sep s)

-- The text does not hold the code point.
abbrev pub Lacks : ℕ → Text → Type 0
Lacks c [] = Unit
Lacks c (d ∷ s) = (d ≢ c) × Lacks c s

pub Lacks-append : (c : ℕ) (s t : Text) → Lacks c s → Lacks c t → Lacks c (s ++ t)
Lacks-append c [] t h k = k
Lacks-append c (d ∷ s) t (p, h) k = (p, Lacks-append c s t h k)

pub strip_prefix-append : (p s : Text) → strip_prefix p (p ++ s) ≡ some s
unfolding strip_prefix
strip_prefix-append [] s = refl
strip_prefix-append (c ∷ p) s = ground (arith, strip_prefix-append p s)

pub strip_prefix-eq-some : (p s r : Text) → strip_prefix p s ≡ some r → s ≡ p ++ r
unfolding strip_prefix
strip_prefix-eq-some [] s r h = ground arith
strip_prefix-eq-some (c ∷ p) [] r h = cc
strip_prefix-eq-some (c ∷ p) (d ∷ s) r h = ground (arith, strip_prefix-eq-some p s r)

pub strip_suffix-append : (p s : Text) → strip_suffix p (s ++ p) ≡ some s
unfolding strip_suffix
strip_suffix-append p s =
    rw (reverse-append s p)
      (rw (strip_prefix-append (reverse p) (reverse s)) (ap some (reverse-reverse s)))

pub starts_with-append : (p s : Text) → starts_with p (p ++ s) ≡ true
unfolding starts_with
starts_with-append [] s = refl
starts_with-append (c ∷ p) s = ground (arith, starts_with-append p s)

pub starts_with-eq-true : (p s : Text) → starts_with p s ≡ true → (r : Text) × (s ≡ p ++ r)
unfolding starts_with
starts_with-eq-true [] s h = (s, refl)
starts_with-eq-true (c ∷ p) [] h = cc
starts_with-eq-true (c ∷ p) (d ∷ s) h =
    let (r, e) = starts_with-eq-true p s (ground arith) in (r, ground arith)

head_or_nil-cons_head : (c : ℕ) (ps : List Text) → head_or_nil (cons_head c ps) ≡ c ∷ head_or_nil ps
head_or_nil-cons_head c [] = refl
head_or_nil-cons_head c (p ∷ ps) = refl

first_piece-cons :
    (sep c : ℕ) (s : Text) → c ≢ sep → first_piece sep (c ∷ s) ≡ c ∷ first_piece sep s
unfolding first_piece
first_piece-cons sep c s h = ground (arith, head_or_nil-cons_head c (split sep s))

-- Up to its first separator a text is its first piece.
pub first_piece_lem : (sep : ℕ) (s t : Text) → Lacks sep s → first_piece sep (s ++ sep ∷ t) ≡ s
first_piece_lem sep [] t h = unfold first_piece in ground arith
first_piece_lem sep (c ∷ s) t (p, h) =
    first_piece-cons sep c (s ++ sep ∷ t) p ∙ ap (λ r. c ∷ r) (first_piece_lem sep s t h)

-- The lexicographic order of texts by code points, which is the order of their bytes in UTF-8.
unfoldable pub text_le : Text → Text → Bool
text_le [] t = true
text_le (c ∷ s) [] = false
text_le (c ∷ s) (d ∷ t) = let rest = text_le s t in if c == d then rest else leb c d

pub text_le_total : (s t : Text) → text_le s t ≡ false → text_le t s ≡ true
unfolding text_le
text_le_total [] t h = cc
text_le_total (c ∷ s) [] h = refl
text_le_total (c ∷ s) (d ∷ t) h = ground (arith, text_le_total s t)

pub text_le_trans : (s t u : Text) → text_le s t ≡ true → text_le t u ≡ true → text_le s u ≡ true
unfolding text_le
text_le_trans [] t u h k = refl
text_le_trans (c ∷ s) [] u h k = cc
text_le_trans (c ∷ s) (d ∷ t) [] h k = cc
text_le_trans (c ∷ s) (d ∷ t) (e ∷ u) h k = ground (arith, text_le_trans s t u)

-- `contains` of a set of texts.
unfoldable pub text_mem : Text → List Text → Bool
text_mem t [] = false
text_mem t (s ∷ ts) = text_eq s t || text_mem t ts

pub split-Lacks : (sep : ℕ) (s : Text) → Lacks sep s → split sep s ≡ s ∷ []
unfolding split
split-Lacks sep [] h = refl
split-Lacks sep (c ∷ s) (p, h) = rw (split-Lacks sep s h) (ground arith)

-- To compute that a text lacks a code point.
pub Lacks-all : (c : ℕ) (s : Text) → all (λ d. not (d == c)) s ≡ true → Lacks c s
Lacks-all c [] h = tt
Lacks-all c (d ∷ s) h = (ground arith, Lacks-all c s (ground arith))

-- ===== src/Prelude/Words.antt =====
-- White space in texts: `trim`, `split_whitespace` and `lines`.
use Prim.Native.Nat.{ℕ}
use mathlib.Core.Path.{◌≡◌, refl, subst, ap, sym, ◌∙◌}
use native.Mathlib.Omega.{arith}
use mathlib.Core.Bool.{Bool, true, false, not, ◌&&◌, ◌||◌}
use mathlib.Core.List.{
  List, [], ◌∷◌, ◌++◌, reverse, reverse-append, reverse-reverse, append-nil, append_assoc,
}
use vmfleet.Prelude.Lists.{all}
use vmfleet.Prelude.Tests.{◌==◌, leb, if◌then◌else◌}
use vmfleet.Prelude.Text.{Text, split, starts_with, starts_with-append, Lacks, Lacks-append}

-- `char::is_whitespace`: the property White_Space of Unicode.
unfoldable pub is_whitespace : ℕ → Bool
is_whitespace c =
    leb 9 c && leb c 13
    || c == 32
    || c == 0x85
    || c == 0xa0
    || c == 0x1680
    || leb 0x2000 c && leb c 0x200a
    || c == 0x2028
    || c == 0x2029
    || c == 0x202f
    || c == 0x205f
    || c == 0x3000

trim_start : Text → Text
unfolding is_whitespace
trim_start [] = []
trim_start (c ∷ s) = let rest = trim_start s in if is_whitespace c then rest else c ∷ s

trim_end : Text → Text
unfolding trim_start
trim_end s = reverse (trim_start (reverse s))

unfoldable pub trim : Text → Text
unfolding trim_start trim_end
trim s = trim_end (trim_start s)

-- `trim_start_matches` and `trim_end_matches`
unfoldable pub trim_start_matches : ℕ → Text → Text
trim_start_matches d [] = []
trim_start_matches d (c ∷ s) = let rest = trim_start_matches d s in if c == d then rest else c ∷ s

unfoldable pub trim_end_matches : ℕ → Text → Text
unfolding trim_start_matches
trim_end_matches d s = reverse (trim_start_matches d (reverse s))

trim_start-keeps : (c : ℕ) (s : Text) → is_whitespace c ≡ false → trim_start (c ∷ s) ≡ c ∷ s
unfolding trim_start
trim_start-keeps c s h = rw h refl

-- A text without white space at its ends is not trimmed.
pub trim-keeps :
    (c : ℕ) (s : Text) (d : ℕ)
    → is_whitespace c ≡ false
    → is_whitespace d ≡ false
    → trim (c ∷ (s ++ d ∷ [])) ≡ c ∷ (s ++ d ∷ [])
unfolding trim trim_end
trim-keeps c s d h k = rw (trim_start-keeps c (s ++ d ∷ []) h) (
    rw (reverse-append (c ∷ s) (d ∷ [])) (
      rw (trim_start-keeps d (reverse (c ∷ s)) k)
        (rw (← reverse-append (c ∷ s) (d ∷ [])) (reverse-reverse (c ∷ (s ++ d ∷ []))))))

trim_start_matches-Lacks : (d : ℕ) (s : Text) → Lacks d s → trim_start_matches d s ≡ s
unfolding trim_start_matches
trim_start_matches-Lacks d [] h = refl
trim_start_matches-Lacks d (c ∷ s) (p, h) = ground arith

pub trim_start_matches-cons : (d : ℕ) (s : Text) → Lacks d s → trim_start_matches d (d ∷ s) ≡ s
unfolding trim_start_matches
trim_start_matches-cons d s h = ground (arith, trim_start_matches-Lacks d s h)

Lacks-reverse : (c : ℕ) (s : Text) → Lacks c s → Lacks c (reverse s)
Lacks-reverse c [] h = tt
Lacks-reverse c (d ∷ s) (p, h) =
    rw (reverse-append (d ∷ []) s)
      (Lacks-append c (reverse s) (d ∷ []) (Lacks-reverse c s h) (p, tt))

pub trim_end_matches-concat : (d : ℕ) (s : Text) → Lacks d s → trim_end_matches d (s ++ d ∷ []) ≡ s
unfolding trim_end_matches
trim_end_matches-concat d s h =
    rw (reverse-append s (d ∷ []))
      (rw (trim_start_matches-cons d (reverse s) (Lacks-reverse d s h)) (reverse-reverse s))

-- `contains` of a text in a text, the pattern first.
unfoldable pub has_text : Text → Text → Bool
has_text p [] = starts_with p []
has_text p (c ∷ s) = starts_with p (c ∷ s) || has_text p s

has_text-starts : (p s : Text) → starts_with p s ≡ true → has_text p s ≡ true
unfolding has_text
has_text-starts p [] h = h
has_text-starts p (c ∷ s) h = ground arith

pub has_text-append : (p s : Text) → has_text p (s ++ p) ≡ true
unfolding has_text
has_text-append p [] =
    has_text-starts p p
      (subst (λ t. starts_with p t ≡ true) (append-nil p) (starts_with-append p []))
has_text-append p (c ∷ s) = ground (arith, has_text-append p s)

-- `split_whitespace`: the current word is gathered in front of the words that follow.
unfoldable pub words_from : Text → Text → List Text
unfolding is_whitespace
words_from [] [] = []
words_from (c ∷ word) [] = reverse (c ∷ word) ∷ []
words_from [] (d ∷ s) = words_from (if is_whitespace d then [] else d ∷ []) s
words_from (c ∷ word) (d ∷ s) =
    let next = reverse (c ∷ word) ∷ words_from [] s in
    let more = words_from (d ∷ c ∷ word) s in if is_whitespace d then next else more

unfoldable pub split_whitespace : Text → List Text
unfolding words_from
split_whitespace s = words_from [] s

words_from-word :
    (x : ℕ) (w d : Text) (c : ℕ) (s : Text)
    → all (λ y. not (is_whitespace y)) d ≡ true
    → is_whitespace c ≡ true
    → words_from (x ∷ w) (d ++ c ∷ s) ≡ (reverse (x ∷ w) ++ d) ∷ words_from [] s
unfolding words_from
words_from-word x w [] c s h k =
    rw k (ap (λ t. t ∷ words_from [] s) (sym (append-nil (reverse (x ∷ w)))))
words_from-word x w (y ∷ d) c s h k =
    let plain : is_whitespace y ≡ false = ground arith in
    rw plain (
      words_from-word y (x ∷ w) d c s (ground arith) k
      ∙ ap (λ t. t ∷ words_from [] s)
          (ap (λ t. t ++ d) (reverse-append (y ∷ []) (x ∷ w))
            ∙ append_assoc (reverse (x ∷ w)) (y ∷ []) d))

words_from-first :
    (x : ℕ) (d : Text) (c : ℕ) (s : Text)
    → all (λ y. not (is_whitespace y)) (x ∷ d) ≡ true
    → is_whitespace c ≡ true
    → words_from [] (x ∷ (d ++ c ∷ s)) ≡ (x ∷ d) ∷ words_from [] s
unfolding words_from
words_from-first x d c s h k =
    let plain : is_whitespace x ≡ false = ground arith in
    let begun : (if is_whitespace x then [] else x ∷ []) ≡ x ∷ [] = rw plain refl in
    ap (λ w. words_from w (d ++ c ∷ s)) begun ∙ words_from-word x [] d c s (ground arith) k

-- Up to white space, a text is its first word.
pub split_whitespace-word :
    (x : ℕ) (d : Text) (c : ℕ) (s : Text)
    → all (λ y. not (is_whitespace y)) (x ∷ d) ≡ true
    → is_whitespace c ≡ true
    → split_whitespace ((x ∷ d) ++ c ∷ s) ≡ (x ∷ d) ∷ words_from [] s
unfolding split_whitespace
split_whitespace-word x d c s h k = words_from-first x d c s h k

trim_start-all : (s : Text) → all (λ y. not (is_whitespace y)) s ≡ true → trim_start s ≡ s
unfolding trim_start
trim_start-all [] h = refl
trim_start-all (c ∷ s) h = ground arith

all-concat :
    (p : ℕ → Bool) (s : Text) (c : ℕ) → all p s ≡ true → p c ≡ true → all p (s ++ c ∷ []) ≡ true
all-concat p [] c h k = ground arith
all-concat p (d ∷ s) c h k = ground (arith, all-concat p s c)

all-reverse : (p : ℕ → Bool) (s : Text) → all p s ≡ true → all p (reverse s) ≡ true
all-reverse p [] h = refl
all-reverse p (c ∷ s) h =
    rw (reverse-append (c ∷ []) s)
      (all-concat p (reverse s) c (all-reverse p s (ground arith)) (ground arith))

-- A text without white space is not trimmed.
pub trim-all : (s : Text) → all (λ y. not (is_whitespace y)) s ≡ true → trim s ≡ s
unfolding trim trim_end
trim-all s h = rw (trim_start-all s h) (
    ap reverse (trim_start-all (reverse s) (all-reverse (λ y. not (is_whitespace y)) s h))
    ∙ reverse-reverse s)

-- `lines`: pieces between line feeds, without a carriage return at their ends and without an
-- empty piece at the end of the text.
drop_last_nil : List Text → List Text
drop_last_nil [] = []
drop_last_nil ([] ∷ []) = []
drop_last_nil (p ∷ ps) = p ∷ drop_last_nil ps

drop_return : Text → Text
drop_return [] = []
drop_return (c ∷ s) = if c == 13 then s else c ∷ s

chop_lines : List Text → List Text
unfolding drop_return
chop_lines [] = []
chop_lines (p ∷ ps) = reverse (drop_return (reverse p)) ∷ chop_lines ps

unfoldable pub lines : Text → List Text
unfolding drop_last_nil chop_lines
lines s = chop_lines (drop_last_nil (split 10 s))

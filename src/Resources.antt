-- ===== src/Resources.antt =====
-- src/resources.rs: the memory, the memory pressure and the free disk space of the host. `f64` is
-- a type with the operations that the program uses, which are given.
use vmfleet.Prelude.{ℕ, ◌*◌, ◌/◌, min, List, [], ◌∷◌, Bool, Option, some, none, and_then, ◌-◌, ok}
use vmfleet.Prelude.Text.{Text, codes, strip_prefix}
use vmfleet.Prelude.Words.{lines, split_whitespace}
use vmfleet.Prelude.Decimal.{parse_u64, u64_mod}
use vmfleet.Prelude.Act.{◌>>=◌, pure}
use vmfleet.World.{System, Io, free_space, read_text}

pub record Floats (F : Type 0) : Type 0 where
  pub zero_float : F
  pub ge : F → F → Bool  -- `>=`, false on a NaN
  pub parse_float : Text → Option F
  pub show_float : F → Text

abbrev first_word : List Text → Option Text
first_word [] = none
first_word (w ∷ ws) = some w

abbrev mem_or_more : Option Text → Option ℕ → Option ℕ
mem_or_more none more = more
mem_or_more (some rest) more = and_then (first_word (split_whitespace rest)) parse_u64

-- The loop over the lines: the first line with the key decides.
mem_in_lines : List Text → Option ℕ
mem_in_lines [] = none
mem_in_lines (line ∷ more) =
    mem_or_more (strip_prefix (codes "MemAvailable:") line) (mem_in_lines more)

unfoldable pub parse_mem_available_kib : Text → Option ℕ
unfolding mem_in_lines
parse_mem_available_kib meminfo = mem_in_lines (lines meminfo)

abbrev to_mib : Option ℕ → ℕ
to_mib none = 0
to_mib (some kib) = kib / 1024

module _ {F : Type 0} (fl : Floats F) where
  -- The loop over the words of a line; a failed parse ends it.
  abbrev psi_or_more : Option Text → Option (Option F) → Option (Option F)
  psi_or_more none more = more
  psi_or_more (some v) more = some (fl.parse_float v)

  psi_in_words : List Text → Option (Option F)
  psi_in_words [] = none
  psi_in_words (tok ∷ more) = psi_or_more (strip_prefix (codes "avg10=") tok) (psi_in_words more)

  abbrev line_or_more : Option (Option F) → Option F → Option F
  line_or_more none more = more
  line_or_more (some v) more = v

  psi_in_lines : List Text → Option F
  unfolding psi_in_words
  psi_in_lines [] = none
  psi_in_lines (line ∷ more) =
      line_or_more
        (and_then (strip_prefix (codes "some ") line)
          (λ rest. psi_in_words (split_whitespace rest)))
        (psi_in_lines more)

  unfoldable pub parse_psi_some_avg10 : Text → Option F
  unfolding psi_in_lines
  parse_psi_some_avg10 psi = psi_in_lines (lines psi)

  abbrev or_zero : Option F → F
  or_zero none = fl.zero_float
  or_zero (some v) = v

  unfoldable pub mem_psi_some_avg10 : System → Io F
  mem_psi_some_avg10 sys = do
    text ← read_text sys (codes "/proc/pressure/memory")
    pure (or_zero (and_then text parse_psi_some_avg10))

unfoldable pub mem_available_mib : System → Io ℕ
mem_available_mib sys = do
  text ← read_text sys (codes "/proc/meminfo")
  pure (to_mib (and_then text parse_mem_available_kib))

-- `saturating_mul` of two u64, in GiB.
abbrev to_gib : ℕ × ℕ → ℕ
to_gib (bavail, frsize) = min (bavail * frsize) (u64_mod - 1) / (1024 * 1024 * 1024)

abbrev pub gib_of : Option (ℕ × ℕ) → Option ℕ
gib_of none = none
gib_of (some stat) = some (to_gib stat)

-- `none` stands for the error of `statvfs`.
unfoldable pub disk_free_gib : System → Text → Io (Option ℕ)
disk_free_gib sys path h = let h' = free_space path ∷ h in (ok (gib_of (sys.on_free_space h')), h')

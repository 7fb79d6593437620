-- ===== src/Supervisor/Cycle/Idle.antt =====
-- Since when src/supervisor.rs takes a runner to be idle.
use vmfleet.Prelude.{
  List, [], ◌∷◌, true, false, ◌||◌, none, ◌≡◌, ◌⊎◌, inl, inr, refl, arith, filter, if◌then◌else◌,
  Bool-cases, ◌∙◌, sym, ap,
}
use vmfleet.Prelude.Text.{Text, text_eq, text_eq_iff, text_mem}
use vmfleet.Prelude.Act.{Returns, Returns-proceed, Returns-mono}
use vmfleet.World.{System, History, now}
use vmfleet.Github.{Runner}
use vmfleet.Supervisor.Scale.{IdleSince, since}
use vmfleet.Supervisor.Cycle.{idle_names, is_set, enter, enter_all, refresh_idle}

-- The entry of a name after the names were entered.
record IsEntered (name : Text) (names : List Text) (m m' : IdleSince) : Type 0 where
  present : is_set (since name m') ≡ (is_set (since name m) || text_mem name names)
  kept : (is_set (since name m) ≡ false) ⊎ (since name m' ≡ since name m)

since-filter :
    (name : Text) (names : List Text) (m : IdleSince)
    → since name (filter (λ e. text_mem e.0 names) m)
      ≡ (if text_mem name names then since name m else none)
unfolding since
since-filter name names [] = ground arith
since-filter name names ((k, t) ∷ m) = elim (Bool-cases (text_eq k name)) [
  | inl same ↦
      let e : text_mem k names ≡ text_mem name names =
        ap (λ n. text_mem n names) ((text_eq_iff k name).0 same) in
      elim (Bool-cases (text_mem name names)) [
        | inl known ↦ rw (e, known, same) refl
        | inr gone ↦ rw (e, gone) (since-filter name names m ∙ (rw gone refl))
      ]
  | inr other ↦ elim (Bool-cases (text_mem k names)) [
    | inl known ↦ rw (known, other) (since-filter name names m)
    | inr gone ↦ rw (gone, other) (since-filter name names m)
  ]
]

module _ (sys : System) (name : Text) where
  enter-IsEntered :
      (x : Text) (m : IdleSince) (h : History)
      → Returns (enter sys x m h) (λ m' _. IsEntered name (x ∷ []) m m')
  unfolding enter now since text_mem
  enter-IsEntered x m h = elim (Bool-cases (is_set (since x m))) [
    | inl known ↦ rw known (record { present = entered known; kept = inr refl })
    | inr new ↦ elim (Bool-cases (text_eq x name)) [
      | inl same ↦ rw new (record {
        present = rw same (ground arith);
        kept = inl (rw (sym ((text_eq_iff x name).0 same)) new);
      })
      | inr other ↦
          rw new (record { present = rw other (ground arith); kept = inr (rw other refl) })
    ]
  ]
    where
      entered :
          is_set (since x m) ≡ true
          → is_set (since name m) ≡ (is_set (since name m) || text_mem name (x ∷ []))
      entered known = elim (Bool-cases (text_eq x name)) [
        | inl same ↦
            let e : since x m ≡ since name m = ap (λ n. since n m) ((text_eq_iff x name).0 same) in
            ground arith
        | inr other ↦ ground arith
      ]

  IsEntered-trans :
      (x : Text) (xs : List Text) {m m' m'' : IdleSince}
      → IsEntered name (x ∷ []) m m'
      → IsEntered name xs m' m''
      → IsEntered name (x ∷ xs) m m''
  unfolding text_mem
  IsEntered-trans x xs f g = record {
    present = ground (arith, f.present, g.present);
    kept = ground (arith, f.kept, g.kept);
  }

  enter_all-IsEntered :
      (names : List Text) (m : IdleSince) (h : History)
      → Returns (enter_all sys names m h) (λ m' _. IsEntered name names m m')
  unfolding enter_all text_mem
  enter_all-IsEntered [] m h = record { present = ground arith; kept = inr refl }
  enter_all-IsEntered (x ∷ xs) m h =
      Returns-proceed (enter sys x m h) _ (λ m' _. IsEntered name (x ∷ []) m m') _
        (enter-IsEntered x m h)
        (λ m' h' f.
          Returns-mono (enter_all sys xs m' h') _ _ (enter_all-IsEntered xs m' h')
            (λ m'' h'' g. IsEntered-trans x xs f g))

  -- The entry of a name after a refresh: there is one exactly for the idle runners, and it is the
  -- old one where there was one.
  pub record IsRefreshed (runners : List Runner) (m m' : IdleSince) : Type 0 where
    pub for_idle : is_set (since name m') ≡ text_mem name (idle_names runners)
    pub time_kept :
        (text_mem name (idle_names runners) ≡ false)
        ⊎ (since name m ≡ none)
        ⊎ (since name m' ≡ since name m)

  -- The refresh of the idle times always returns. After it exactly the names of the online runners
  -- that are not busy have an entry, and those that had one before keep it, so that the idle time
  -- of a runner starts anew only when it was seen busy, offline or not at all.
  pub refresh_idle-IsRefreshed :
      (runners : List Runner) (m : IdleSince) (h : History)
      → Returns (refresh_idle sys runners m h) (λ m' _. IsRefreshed runners m m')
  unfolding refresh_idle
  refresh_idle-IsRefreshed runners m h =
      let names = idle_names runners in
      let old = filter (λ e. text_mem e.0 names) m in
      Returns-mono (enter_all sys names old h) _ _ (enter_all-IsEntered names old h) (λ m' h' f.
        let e = since-filter name names m in
        record { for_idle = ground (arith, e, f.present); time_kept = ground (arith, e, f.kept) })

-- ===== src/Multipass/Purge.antt =====
-- The teardown of a machine in src/multipass.rs.
use vmfleet.Prelude.{
  [], ◌∷◌, Bool, true, false, Option, some, none, ◌≡◌, inl, inr, refl, Bool-cases,
}
use vmfleet.Prelude.Text.{Text, codes}
use vmfleet.Prelude.Act.{OnOk, OnOk-proceed}
use vmfleet.World.{
  System, CmdOut, Request, command, History, Extends, unchanged, asked, Extends-proceed, run,
  succeeded, ran,
}
use vmfleet.Multipass.{multipass, delete, retry_delete, purge}

abbrev pub delete_command : Text → Request
delete_command name = command multipass (codes "delete" ∷ name ∷ codes "--purge" ∷ []) (some 90)

-- The commands of a teardown: they name this machine only.
pub data TearsDown (name : Text) : Request → Type 0 where
  cancels :
      TearsDown name (command multipass (codes "stop" ∷ name ∷ codes "--cancel" ∷ []) (some 60))
  stops : TearsDown name (command multipass (codes "stop" ∷ codes "--force" ∷ name ∷ []) (some 60))
  deletes : TearsDown name (delete_command name)

module _ (sys : System) (name : Text) where
  retry-TearsDown :
      (done : Bool) (h : History) → Extends (TearsDown name) h (retry_delete sys name done h).1
  unfolding retry_delete run
  retry-TearsDown true h = unchanged
  retry-TearsDown false h =
      let h1 = command multipass (codes "stop" ∷ codes "--force" ∷ name ∷ []) (some 60) ∷ h in
      Extends-proceed (delete sys name h1) _ (asked (asked unchanged _ stops) _ deletes) (λ o h'.
        elim (Bool-cases (succeeded o)) [ inl e ↦ rw e unchanged | inr e ↦ rw e unchanged ])

  -- A teardown makes commands about its own machine only.
  pub purge-TearsDown : (h : History) → Extends (TearsDown name) h (purge sys name h).1
  unfolding purge run
  purge-TearsDown h =
      let h1 = command multipass (codes "stop" ∷ name ∷ codes "--cancel" ∷ []) (some 60) ∷ h in
      let h2 = command multipass (codes "stop" ∷ codes "--force" ∷ name ∷ []) (some 60) ∷ h1 in
      Extends-proceed (delete sys name h2) _
        (asked (asked (asked unchanged _ cancels) _ stops) _ deletes)
        (λ o h'. retry-TearsDown (succeeded o) h')

  -- The last request was the deletion of the machine, and it succeeded.
  abbrev pub Deleted : History → Type 0
  Deleted h =
      (before : History) × (o : CmdOut) × (h ≡ delete_command name ∷ before)
      × (sys.on_command h ≡ some o)
      × (succeeded o ≡ true)

  abbrev Answered : History → CmdOut → History → Type 0
  Answered h o h' = (h' ≡ delete_command name ∷ h) × (sys.on_command h' ≡ some o)

  Answered-of :
      (o : Option CmdOut) (h h' : History)
      → h' ≡ delete_command name ∷ h
      → sys.on_command h' ≡ o
      → OnOk (ran sys multipass o, h') (λ r h2. Answered h r h2)
  Answered-of none h h' e a = tt
  Answered-of (some o) h h' e a = (e, a)

  delete-Answered : (h : History) → OnOk (delete sys name h) (λ o h'. Answered h o h')
  unfolding delete run
  delete-Answered h = Answered-of _ h (delete_command name ∷ h) refl refl

  retry-Deleted :
      (o : CmdOut) (h h' : History)
      → Answered h o h'
      → OnOk (retry_delete sys name (succeeded o) h') (λ _ h2. Deleted h2)
  unfolding retry_delete run
  retry-Deleted o h h' (e, a) = elim (Bool-cases (succeeded o)) [
    | inl done ↦ rw done (h, o, e, a, done)
    | inr failed ↦
        let h1 = command multipass (codes "stop" ∷ codes "--force" ∷ name ∷ []) (some 60) ∷ h' in
        rw failed (
          OnOk-proceed (delete sys name h1) _ (λ o2 h2. Answered h1 o2 h2) _ (delete-Answered h1)
            (λ o2 h2 b. elim (Bool-cases (succeeded o2)) [
              | inl done ↦ rw done (h1, o2, b.0, b.1, done)
              | inr again ↦ rw again tt
            ]))
  ]

  -- Where a teardown succeeds, its last request was the deletion of the machine, and that command
  -- ended with status 0. A teardown makes commands about its own machine only, succeed or fail.
  pub purge-Deleted :
      (h : History)
      → OnOk (purge sys name h) (λ _ h'. Deleted h')
        × Extends (TearsDown name) h (purge sys name h).1
  unfolding purge run
  purge-Deleted h =
      let h1 = command multipass (codes "stop" ∷ name ∷ codes "--cancel" ∷ []) (some 60) ∷ h in
      let h2 = command multipass (codes "stop" ∷ codes "--force" ∷ name ∷ []) (some 60) ∷ h1 in
      (
        OnOk-proceed (delete sys name h2) _ (λ o h'. Answered h2 o h') _ (delete-Answered h2)
            (λ o h' a. retry-Deleted o h2 h' a),
        purge-TearsDown h,
      )

  -- A teardown always tries the deletion.
  pub purge-asks :
      (h : History)
      → (before : History) × Extends (TearsDown name) h before
        × Extends (TearsDown name) (delete_command name ∷ before) (purge sys name h).1
  unfolding purge run delete
  purge-asks h =
      let h1 = command multipass (codes "stop" ∷ name ∷ codes "--cancel" ∷ []) (some 60) ∷ h in
      let h2 = command multipass (codes "stop" ∷ codes "--force" ∷ name ∷ []) (some 60) ∷ h1 in
      (
        h2,
        asked (asked unchanged _ cancels) _ stops,
        Extends-proceed (delete sys name h2) _ unchanged (λ o h'. retry-TearsDown (succeeded o) h'),
      )

-- ===== src/Multipass/Listing.antt =====
-- What `list_prefixed` of src/multipass.rs asks for and returns.
use vmfleet.Prelude.{[], ◌∷◌, true, some, ◌≡◌, ◌∙◌, All, All-filter, filter}
use vmfleet.Prelude.Text.{Text, codes, starts_with}
use vmfleet.Prelude.Act.{OnOk, OnOk-pure, proceed-pure}
use vmfleet.World.{System, History, Request, command, checked, run}
use vmfleet.Multipass.{multipass, parse_list_csv, list, list_prefixed}

abbrev pub list_command : Request
list_command = command multipass (codes "list" ∷ codes "--format" ∷ codes "csv" ∷ []) (some 30)

module _ (sys : System) where
  list-asks : (h : History) → (list sys h).1 ≡ list_command ∷ h
  unfolding list checked run
  list-asks h =
      proceed-pure
        (checked sys multipass (codes "list" ∷ codes "--format" ∷ codes "csv" ∷ []) (some 30) h)
        parse_list_csv

  pub list_prefixed-asks :
      (prefix : Text) (h : History) → (list_prefixed sys prefix h).1 ≡ list_command ∷ h
  unfolding list_prefixed
  list_prefixed-asks prefix h =
      proceed-pure (list sys h) (filter (λ vm. starts_with prefix vm.0)) ∙ list-asks h

  pub list_prefixed-All :
      (prefix : Text) (h : History)
      → OnOk (list_prefixed sys prefix h) (λ vms _. All (λ vm. starts_with prefix vm.0 ≡ true) vms)
  unfolding list_prefixed
  list_prefixed-All prefix h =
      OnOk-pure (list sys h) (filter (λ vm. starts_with prefix vm.0)) _
        (λ vms _. All-filter (λ vm. starts_with prefix vm.0) vms)

-- ===== src/Github.antt =====
-- src/github.rs: the records of the runners API, and the calls that other parts make of the client.
pub mod Requests
pub mod Calls
use vmfleet.Prelude.{ℕ, List, Bool, any, Option}
use vmfleet.Prelude.Text.{Text, codes, text_eq}
use vmfleet.World.{Io, Total, Request, History, http, sleep, read_clock, read_wall_clock, Extends}

pub record Runner : Type 0 where
  pub id : ℕ
  pub name : Text
  pub status : Text
  pub busy : Bool
  pub labels : List Text

unfoldable pub has_label : Text → Runner → Bool
has_label l r = any (λ x. text_eq x l) r.labels

unfoldable pub online : Runner → Bool
online r = text_eq r.status (codes "online")

-- The calls of the client that the supervisor, a worker and `gc` make.
pub record Client : Type 0 where
  pub reachable : Io (Unit {0})
  pub list_runners : Io (List Runner)
  pub registration_token : Io Text
  pub generate_jitconfig : Text → List Text → Io Text
  pub queued_labels : Total (List (Text × ℕ))
  pub delete_runner : ℕ → Io (Unit {0})

-- The requests of a client: calls of the server, and what its retries wait for.
pub data Remote : Request → Type 0 where
  calls : (method url : Text) (token body : Option Text) → Remote (http method url token body)
  pauses : (n : ℕ) → Remote (sleep n)
  looks : Remote read_clock
  looks_at_wall : Remote read_wall_clock

-- A client that touches nothing on the host.
pub record IsRemote (client : Client) : Type 0 where
  pub lists : (h : History) → Extends Remote h (client.list_runners h).1
  pub deletes : (id : ℕ) (h : History) → Extends Remote h (client.delete_runner id h).1

-- ===== src/Notifications/Worker.antt =====
-- internal/notifications/worker.go: the loop of `Run`, over what `Consume` returns in turn, and for
-- an error whether the context is done before the second of waiting is over.
pub mod Deliveries
use server_watch.Base.{
  ℕ, ◌==◌, Bool, true, false, ◌&&◌, List, [], ◌∷◌, String, str_eq, Error, errors_is, canceled,
  Action, if◌then◌else◌,
}
use server_watch.Model.{Floats, Notification}

pub data Poll (F : Type 0) : Type 0 where
  received : Notification F → Poll F
  failed : Error → Bool → Poll F

-- A `Sender` over the outside world `S`.
abbrev pub Sender : Type 0 → Type 0 → Type 0
Sender F S = Notification F → Action S (Unit {0})

pub data Exit : Type 0 where
  stopped : Exit
  polling : Exit

-- Every sender gets the notification; its errors are logged.
unfoldable pub deliver : {F S : Type 0} → List (Sender F S) → Notification F → S → S
deliver [] n s = s
deliver (send ∷ senders) n s = deliver senders n (send n s).1

module _ {F : Type 0} (fl : Floats F) where
  -- `notification == (Notification{})`
  abbrev pub is_empty : Notification F → Bool
  is_empty n =
      str_eq n.kind ""
      && str_eq n.action ""
      && fl.is_zero n.value
      && fl.is_zero n.threshold
      && n.timestamp == 0

  -- `polling` is the loop still going when the polls are used up.
  unfoldable pub run : {S : Type 0} → List (Sender F S) → List (Poll F) → S → Exit × S
  run senders [] s = (polling, s)
  run senders (failed e done ∷ polls) s =
      let rest = run senders polls s in
      if errors_is e canceled then (stopped, s) else if done then (stopped, s) else rest
  run senders (received n ∷ polls) s =
      let skip = run senders polls s in
      let next = run senders polls (deliver senders n s) in if is_empty n then skip else next

-- ===== src/Notifications/Worker/Deliveries.antt =====
-- Which notifications the worker delivers.
use server_watch.Base.{
  ◌≡◌, refl, Bool, false, ◌||◌, List, [], ◌∷◌, errors_is, canceled, arith, if◌then◌else◌,
  Bool-cases, inl, inr,
}
use mathlib.Core.List.{foldl}
use server_watch.Model.{Floats, Notification}
use server_watch.Notifications.Worker.{
  Poll, received, failed, Sender, Exit, stopped, polling, is_empty, deliver, run,
}

-- The polls before the loop ends, and whether it does.
abbrev pub ends_loop : {F : Type 0} → Poll F → Bool
ends_loop (received n) = false
ends_loop (failed e done) = errors_is e canceled || done

abbrev pub served : {F : Type 0} → List (Poll F) → List (Poll F)
served [] = []
served (p ∷ polls) = let rest = served polls in if ends_loop p then [] else p ∷ rest

abbrev pub exit_of : {F : Type 0} → List (Poll F) → Exit
exit_of [] = polling
exit_of (p ∷ polls) = let rest = exit_of polls in if ends_loop p then stopped else rest

-- Every sender in turn gets `n`.
abbrev pub to_all : {F S : Type 0} → List (Sender F S) → S → Notification F → S
to_all senders s n = foldl (λ s' send. (send n s').1) s senders

deliver-to_all :
    {F S : Type 0} (senders : List (Sender F S)) (n : Notification F) (s : S)
    → deliver senders n s ≡ to_all senders s n
unfolding deliver
deliver-to_all [] n s = refl
deliver-to_all (send ∷ senders) n s = deliver-to_all senders n (send n s).1

module _ {F : Type 0} (fl : Floats F) where
  -- The notifications among some polls, but the empty one.
  abbrev pub notifications : List (Poll F) → List (Notification F)
  notifications [] = []
  notifications (failed e done ∷ polls) = notifications polls
  notifications (received n ∷ polls) =
      let rest = notifications polls in if is_empty fl n then rest else n ∷ rest

  -- For any outcomes of `Consume`, the worker's loop gives each notification that comes before its
  -- end, the empty ones excepted, to every sender once and in order; it ends at the first
  -- cancelled poll, or the first failed poll whose wait is cancelled.
  pub run_deliveries :
      {S : Type 0} (senders : List (Sender F S)) (polls : List (Poll F)) (s : S)
      → run fl senders polls s
        ≡ (exit_of polls, foldl (to_all senders) s (notifications (served polls)))
  unfolding run
  run_deliveries senders [] s = refl
  run_deliveries senders (failed e done ∷ polls) s = ground (arith, run_deliveries senders polls s)
  run_deliveries senders (received n ∷ polls) s = elim (Bool-cases (is_empty fl n)) [
    | inl skip ↦ rw skip (run_deliveries senders polls s)
    | inr next ↦
        rw (next, deliver-to_all senders n s) (run_deliveries senders polls (to_all senders s n))
  ]

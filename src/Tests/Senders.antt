-- ===== src/Tests/Senders.antt =====
-- Deliveries: the sender, the worker and the queue.
use server_watch.Base.{
  ℕ, ◌≡◌, refl, true, some, str_eq, if◌then◌else◌, List, [], ◌∷◌, String, Result, ok, sentinel,
  canceled, ◌*◌,
}
use mathlib.Core.List.{reverse}
use server_watch.Model.{
  Notification, second, alert_type_high_cpu, alert_type_high_mem, action_created,
}
use server_watch.Notifications.Sender.{SenderEnv, send}
use server_watch.Notifications.Sender.Attempts.{observed, take, requested, waited, send-Follows}
use server_watch.Notifications.Worker.{received, failed, Sender, stopped, run}
use server_watch.Notifications.Worker.Deliveries.{run_deliveries}
use server_watch.Notifications.Queue.{NotificationCodec}
use server_watch.Notifications.Queue.Order.{pushes, consumes, consumes-pushes}
use server_watch.Tests.Stores.{Number, numbers}
use server_watch.Tests.Client.{server, list_laws, no_keys}

abbrev pub cpu_created : Notification Number
cpu_created = record {
  kind = alert_type_high_cpu;
  action = action_created;
  value = some 95;
  threshold = some 80;
  timestamp = 100;
}

abbrev mem_created : Notification Number
mem_created = record cpu_created { kind = alert_type_high_mem; threshold = some 90 }

-- Each request takes the next status of a list, and 200 after its end.
abbrev answer : List ℕ → Result ℕ × List ℕ
answer [] = (ok 200, [])
answer (code ∷ codes) = (ok code, codes)

abbrev pub net : SenderEnv Number
net = record {
  St = List ℕ;
  format_float = λ x. "95.00";
  format_time = λ t. "12:00";
  marshal = ok;
  Request = String;
  new_request = λ url body. ok body;
  do_request = λ q s. answer s;
  wait = λ t s. (ok tt, s);
}

-- The text of `cpu_created`.
abbrev pub text : String
text = "🚨ALERT: HIGH_CPU | Value: 95.00% | Threshold: 95.00% | Time: 12:00"

send-Follows_example :
    (k : ℕ) × ((send (observed net) "http://slack" cpu_created (503 ∷ [], [])).1.1
      ≡ reverse
          (take k (requested ∷ waited second ∷ requested ∷ waited (2 * second) ∷ requested ∷ [])))
send-Follows_example = send-Follows net "http://slack" cpu_created (503 ∷ [])

-- A sender that keeps what it is given.
abbrev pub keep : Sender Number (List (Notification Number))
keep n s = (ok tt, n ∷ s)

run_deliveries_example :
    run numbers
      (keep ∷ [])
      (received cpu_created ∷ failed (sentinel canceled) true ∷ received mem_created ∷ [])
      []
    ≡ (stopped, cpu_created ∷ [])
run_deliveries_example =
    run_deliveries numbers (keep ∷ [])
      (received cpu_created ∷ failed (sentinel canceled) true ∷ received mem_created ∷ []) []

abbrev codec : NotificationCodec Number
codec = record {
  marshal = λ n. ok n.kind;
  unmarshal = λ k. ok (record cpu_created {
    kind = k;
    threshold = if str_eq k alert_type_high_cpu then some 80 else some 90;
  });
  empty = record { kind = ""; action = ""; value = some 0; threshold = some 0; timestamp = 0 };
}

consumes-pushes_example :
    let pushed = pushes server codec "watch:" (cpu_created ∷ mem_created ∷ []) no_keys in
    let (replies, s') = consumes server codec "watch:" 2 pushed in
    (replies ≡ ok mem_created ∷ ok cpu_created ∷ []) × (s'.lists "watch:notifications:queue" ≡ [])
consumes-pushes_example =
    consumes-pushes server list_laws codec "watch:" (λ n. n.kind) (cpu_created ∷ mem_created ∷ [])
      no_keys ((refl, refl), ((refl, refl), tt)) tt

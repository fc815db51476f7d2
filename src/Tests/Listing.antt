-- ===== src/Tests/Listing.antt =====
-- A table with two open alerts and one that was resolved.
use server_watch.Base.{◌≡◌, refl, true, some, List, [], ◌∷◌, ok}
use mathlib.Core.List.Permᴰ as PermD
use server_watch.Model.{AlertType, Alert, valid_alert_type, alert_type_high_mem}
use server_watch.Storage.{AlertRow, get_alerts, row_of_alert}
use server_watch.Storage.Contract.{Ready, active}
use server_watch.Storage.Listing.{QueryLaws, of_type, to_list, get_alerts_active}
use server_watch.Tests.Stores.{Number, numbers, table, table_laws, cpu_alert}

abbrev table_queries : QueryLaws table table_laws
table_queries = record { select_alerts_law = λ b s up. (_, s, refl, up, refl, PermD.refl _) }

abbrev three_alerts : List (AlertRow Number)
three_alerts =
    row_of_alert (record cpu_alert { id = 7; resolved = true; resolved_at = some 6 })
    ∷ row_of_alert (record cpu_alert { id = 8; kind = alert_type_high_mem })
    ∷ row_of_alert (record cpu_alert { id = 9 })
    ∷ []

three_alerts-Ready : Ready numbers table table_laws three_alerts
three_alerts-Ready = (
  tt,
  (
    ((refl, (refl, tt)), ((refl, tt), (tt, tt))),
    ((λ h. cc), ((λ h. cc), ((λ h. refl), tt))),
    ((λ h. cc), ((λ h. refl), ((λ h. cc), tt))),
  ),
)

get_alerts_active_example :
    (alerts : List (Alert Number)) × (s' : List (AlertRow Number)) × (get_alerts numbers table true
        three_alerts
      ≡ (ok alerts, s'))
    × Ready numbers table table_laws s'
    × ((t : AlertType)
        → active numbers table table_laws s' t ≡ active numbers table table_laws three_alerts t)
    × ((t : AlertType)
        → valid_alert_type t ≡ true
        → of_type t alerts ≡ to_list (active numbers table table_laws three_alerts t))
get_alerts_active_example =
    get_alerts_active numbers table table_laws table_queries three_alerts three_alerts-Ready

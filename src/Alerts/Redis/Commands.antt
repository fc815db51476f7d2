-- ===== src/Alerts/Redis/Commands.antt =====
-- What the other methods of the Redis store do to the keys while Redis is up.
use server_watch.Base.{
  ℕ, ◌≤◌, ◌≡◌, refl, Option, none, some, Bool, true, false, String, str_eq, inl, inr, arith, ok, ap,
  ap₂, wrapping, wrapping_ok, List, ◌∙◌, ◌/◌,
}
use server_watch.Base.Int.{pos, ◌≤ℤ◌}
use server_watch.Model.{second, AlertType, AlertState, valid_alert_type, valid_alert_type-cases}
use server_watch.RedisClient.{ScriptCall, RedisClient, RedisLaws, put, reply}
use server_watch.Alerts.Redis.{
  RedisAlertStateStore, is_active, set_active, set_state, set_state_script, flag, active_reply,
}
use server_watch.Alerts.Redis.Increment.{view}
use server_watch.Alerts.Redis.View.{text_of, cond_key, count_key, active_key}

div_pos : (ttl : ℕ) → second ≤ ttl → pos 1 ≤ℤ pos (ttl / second)
div_pos ttl h = omega (arith, h)

module _ (client : RedisClient) (laws : RedisLaws client) (r : RedisAlertStateStore) where
  open laws use {value, Up, get_law, set_law, eval_law}

  active_reply-reply :
      (o : Option String) → active_reply client r (reply o) ≡ ok (str_eq (text_of o) "1")
  active_reply-reply none = refl
  active_reply-reply (some v) = ground arith

  active_reply_result :
      (k : String) (s : client.St)
      → Up s
      → (s' : client.St) × (client.get k s ≡ (reply (value s k), s'))
        × (active_reply client r (client.get k s).0 ≡ ok (str_eq (text_of (value s k)) "1"))
        × Up s'
        × (value s' ≡ value s)
  active_reply_result k s up =
      let (s', e, up', val) = get_law k s up in
      (s', e, rw e (active_reply-reply (value s k)), up', val)

  is_active_keys :
      (t : AlertType) (s : client.St)
      → valid_alert_type t ≡ true
      → is_active client r t s ≡ (
        active_reply client r (client.get (active_key r.prefix t) s).0,
        (client.get (active_key r.prefix t) s).1,
      )
  unfolding is_active
  is_active_keys t s v = elim (valid_alert_type-cases t v) [ inl e ↦ rw e | inr e ↦ rw e ]

  pub is_active_result :
      (t : AlertType) (s : client.St)
      → valid_alert_type t ≡ true
      → Up s
      → (s' : client.St) × (is_active client r t s ≡ (ok (view client laws r s t).active, s'))
        × Up s'
        × (value s' ≡ value s)
  is_active_result t s v up =
      let (s', e, a, up', val) = active_reply_result (active_key r.prefix t) s up in
      (s', is_active_keys t s v ∙ ap₂ (λ x y. (x, y)) a (ap (λ z. z.1) e), up', val)

  pub flag-active : (b : Bool) → str_eq (client.format_int (flag b)) "1" ≡ b
  flag-active true = rw laws.format_one
  flag-active false = rw laws.format_zero

  set_active_keys :
      (t : AlertType) (b : Bool) (s : client.St)
      → valid_alert_type t ≡ true
      → set_active client r t b s
        ≡ wrapping "не удалось поменять статус алерта"
            (client.set (active_key r.prefix t) (client.format_int (flag b)) 0)
            s
  unfolding set_active
  set_active_keys t b s v = elim (valid_alert_type-cases t v) [ inl e ↦ rw e | inr e ↦ rw e ]

  abbrev script : AlertType → AlertState → List ScriptCall
  script t new =
      set_state_script (cond_key r.prefix t) (count_key r.prefix t) (active_key r.prefix t)
        new.condition (client.format_int new.count) (client.format_int (flag new.active))
        (pos (r.ttl / second))

  set_state_keys :
      (t : AlertType) (new : AlertState) (s : client.St)
      → valid_alert_type t ≡ true
      → set_state client r t new s
        ≡ wrapping "не удалось установить состояние алерта" (client.eval (script t new)) s
  unfolding set_state
  set_state_keys t new s v = elim (valid_alert_type-cases t v) [ inl e ↦ rw e | inr e ↦ rw e ]

  pub set_active_result :
      (t : AlertType) (b : Bool) (s : client.St)
      → valid_alert_type t ≡ true
      → Up s
      → (s' : client.St) × (set_active client r t b s ≡ (ok tt, s'))
        × Up s'
        × (value s' ≡ put (active_key r.prefix t) (client.format_int (flag b)) (value s))
  set_active_result t b s v up =
      let (s', e, up', val) = set_law (active_key r.prefix t) (client.format_int (flag b)) 0 s up in
      (
        s',
        set_active_keys t b s v
            ∙ wrapping_ok "не удалось поменять статус алерта"
                (client.set (active_key r.prefix t) (client.format_int (flag b)) 0) s e,
        up',
        val,
      )

  pub set_state_result :
      (t : AlertType) (new : AlertState) (s : client.St)
      → second ≤ r.ttl
      → valid_alert_type t ≡ true
      → Up s
      → (s' : client.St) × (set_state client r t new s ≡ (ok tt, s'))
        × Up s'
        × (value s'
            ≡ put (active_key r.prefix t) (client.format_int (flag new.active)) (
                put
                  (count_key r.prefix t)
                  (client.format_int new.count)
                  (put (cond_key r.prefix t) new.condition (value s))))
  set_state_result t new s lives v up =
      let whole = div_pos r.ttl lives in
      let (s', e, up', val) = eval_law (script t new) s (whole, (whole, (tt, tt))) up in
      (
        s',
        set_state_keys t new s v
            ∙ wrapping_ok "не удалось установить состояние алерта" (client.eval (script t new)) s e,
        up',
        val,
      )

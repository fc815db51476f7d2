-- ===== src/Notifications/Queue/Order.antt =====
-- In which order notifications leave the queue.
use server_watch.Base.{
  ℕ, zero, suc, ◌≡◌, refl, sym, ap, subst, map, length, Result, List, [], ◌∷◌, ◌++◌, String, ok,
  err, sentinel, redis_nil, arith, ◌∙◌,
}
use mathlib.Core.List.{foldl, reverse, reverse-cons, append_assoc, append-nil}
use server_watch.Base.{All, All-reverse, length-reverse, reverse-map}
use server_watch.Model.{Time, second, Notification}
use server_watch.RedisClient.{RedisClient}
use server_watch.Notifications.Queue.{NotificationCodec, queue_key, push, consume}

-- The documented behaviour of the two list commands: `items` is what a list holds.
pub record ListLaws (client : RedisClient) : Type 1 where
  pub items : client.St → String → List String
  pub Up : client.St → Type 0
  pub rpush_law :
      (k v : String) (s : client.St)
      → Up s
      → (s' : client.St) × (client.rpush k v s ≡ (ok tt, s'))
        × Up s'
        × (items s' k ≡ items s k ++ v ∷ [])
  pub brpop_law :
      (t : Time) (k v : String) (vs : List String) (s : client.St)
      → Up s
      → items s k ≡ vs ++ v ∷ []
      → (s' : client.St) × (client.brpop t k s ≡ (ok (k ∷ v ∷ []), s')) × Up s' × (items s' k ≡ vs)
  pub brpop_empty :
      (t : Time) (k : String) (s : client.St)
      → Up s
      → items s k ≡ []
      → (s' : client.St) × (client.brpop t k s ≡ (err (sentinel redis_nil), s'))
        × Up s'
        × (items s' k ≡ [])

module _ {F : Type 0} (client : RedisClient) (codec : NotificationCodec F) (prefix : String) where
  abbrev pub pushes : List (Notification F) → client.St → client.St
  pushes ns s = foldl (λ s' n. (push client codec prefix n s').1) s ns

  -- So many calls of `Consume`, one after the other.
  abbrev pub consumes : ℕ → client.St → List (Result (Notification F)) × client.St
  consumes zero s = ([], s)
  consumes (suc k) s =
      let (r, s1) = consume client codec prefix s in let (rs, s2) = consumes k s1 in (r ∷ rs, s2)

module _ {F : Type 0} (client : RedisClient) (laws : ListLaws client) (codec : NotificationCodec F)
    (prefix : String) where
  open laws use {items, Up}

  -- A notification that JSON carries there and back.
  abbrev pub RoundTrips : (Notification F → String) → Notification F → Type 0
  RoundTrips text n = (codec.marshal n ≡ ok (text n)) × (codec.unmarshal (text n) ≡ ok n)

  push_result :
      (text : Notification F → String) (n : Notification F) (s : client.St)
      → RoundTrips text n
      → Up s
      → (s' : client.St) × (push client codec prefix n s ≡ (ok tt, s'))
        × Up s'
        × (items s' (queue_key client codec prefix)
            ≡ items s (queue_key client codec prefix) ++ text n ∷ [])
  unfolding push
  push_result text n s (m, u) up =
      let (s', e, up', it) = laws.rpush_law (queue_key client codec prefix) (text n) s up in
      (s', ground arith, up', it)

  consume_result :
      (text : Notification F → String) (n : Notification F) (vs : List String) (s : client.St)
      → RoundTrips text n
      → Up s
      → items s (queue_key client codec prefix) ≡ vs ++ text n ∷ []
      → (s' : client.St) × (consume client codec prefix s ≡ (ok n, s'))
        × Up s'
        × (items s' (queue_key client codec prefix) ≡ vs)
  unfolding consume
  consume_result text n vs s (m, u) up it =
      let (s', e, up', it') =
        laws.brpop_law second (queue_key client codec prefix) (text n) vs s up it in
      (s', ground arith, up', it')

  module _ (text : Notification F → String) where
    pushes_result :
        (ns : List (Notification F)) (s : client.St)
        → All (RoundTrips text) ns
        → Up s
        → Up (pushes client codec prefix ns s)
          × (items (pushes client codec prefix ns s) (queue_key client codec prefix)
              ≡ items s (queue_key client codec prefix) ++ map text ns)
    pushes_result [] s carried up = (up, sym (append-nil _))
    pushes_result (n ∷ ns) s (c, carried) up =
        let (s1, e, up1, it1) = push_result text n s c up in
        let here : (push client codec prefix n s).1 ≡ s1 = ap (λ o. o.1) e in
        let (up2, it2) = pushes_result ns s1 carried up1 in
        rw here (up2, it2 ∙ rw it1 (append_assoc _ (text n ∷ []) (map text ns)))

    consumes_result :
        (vs : List String) (ns : List (Notification F)) (s : client.St)
        → All (RoundTrips text) ns
        → Up s
        → items s (queue_key client codec prefix) ≡ vs ++ reverse (map text ns)
        → ((consumes client codec prefix (length ns) s).0 ≡ map ok ns)
          × (items (consumes client codec prefix (length ns) s).1 (queue_key client codec prefix)
              ≡ vs)
    consumes_result vs [] s carried up it = (refl, it ∙ append-nil vs)
    consumes_result vs (n ∷ ns) s (c, carried) up it =
        let last =
          it
          ∙ ap (λ l. vs ++ l) (reverse-cons (text n) (map text ns))
          ∙ sym (append_assoc vs (reverse (map text ns)) (text n ∷ [])) in
        let (s1, e, up1, it1) = consume_result text n (vs ++ reverse (map text ns)) s c up last in
        let (rest, kept) = consumes_result vs ns s1 carried up1 it1 in
        (
          rw e (ap (λ l. ok n ∷ l) rest),
          subst
              (λ t.
                items (consumes client codec prefix (length ns) t).1 (queue_key client codec prefix)
                ≡ vs)
              (sym (ap (λ o. o.1) e)) kept,
        )

    -- Over a list that Redis serves, and for any notifications that JSON carries there and back,
    -- after calls of `Push` with them as many calls of `Consume` return them in the opposite
    -- order, and the list is as before.
    pub consumes-pushes :
        (ns : List (Notification F)) (s : client.St)
        → All (RoundTrips text) ns
        → Up s
        → ((consumes client codec prefix (length ns) (pushes client codec prefix ns s)).0
            ≡ map ok (reverse ns))
          × (items
                (consumes client codec prefix (length ns) (pushes client codec prefix ns s)).1
                (queue_key client codec prefix)
              ≡ items s (queue_key client codec prefix))
    consumes-pushes ns s carried up =
        let (up', it) = pushes_result ns s carried up in
        let key = queue_key client codec prefix in
        let texts : items (pushes client codec prefix ns s) key
            ≡ items s key ++ reverse (map text (reverse ns)) =
          it ∙ ap (λ l. items s key ++ l) (sym (reverse-map text ns)) in
        rw (← length-reverse ns) (
          consumes_result (items s key) (reverse ns) (pushes client codec prefix ns s)
            (All-reverse (RoundTrips text) ns carried) up' texts)

  -- An empty queue gives the empty notification and no error.
  pub consume_empty :
      (s : client.St)
      → Up s
      → items s (queue_key client codec prefix) ≡ []
      → (consume client codec prefix s).0 ≡ ok codec.empty
  unfolding consume
  consume_empty s up none_left =
      let (s', e, up', it') =
        laws.brpop_empty second (queue_key client codec prefix) s up none_left in
      rw e

-- ===== src/Alerts/Store/Agreement.antt =====
-- The same calls on two stores that keep the contract.
use server_watch.Base.{
  ℕ, suc, ◌+◌, ◌≤◌, ◌≡◌, ◌∙◌, refl, sym, ap, ap₂, subst, Bool, true, List, [], ◌∷◌, length, str_eq,
  Result, ok, All, Bool-cases, inl, inr, arith,
}
use server_watch.Base.Int.{ℤ, max_int64, pos_part, neg_part}
use server_watch.Model.{AlertType, AlertCondition, AlertState, valid_alert_type}
use server_watch.Alerts.Store.{AlertStateStore, StoreLaws, HasRoom, bump, with_state}

pub data Call : Type 0 where
  increment : AlertType → AlertCondition → Call
  ask : AlertType → Call
  mark : AlertType → Bool → Call

pub data Answer : Type 0 where
  counted : Result ℤ → Answer
  asked : Result Bool → Answer
  marked : Result (Unit {0}) → Answer

abbrev pub type_of : Call → AlertType
type_of (increment t c) = t
type_of (ask t) = t
type_of (mark t b) = t

abbrev pub IsValidCall : Call → Type 0
IsValidCall c = valid_alert_type (type_of c) ≡ true

abbrev pub answer : (a : AlertStateStore) → Call → a.St → Answer × a.St
answer a (increment t c) s = let (r, s') = a.increment_count t c s in (counted r, s')
answer a (ask t) s = let (r, s') = a.is_active t s in (asked r, s')
answer a (mark t b) s = let (r, s') = a.set_active t b s in (marked r, s')

-- The results of calls, in order.
abbrev pub answers : (a : AlertStateStore) → List Call → a.St → List Answer
answers a [] s = []
answers a (c ∷ calls) s = let (x, s') = answer a c s in x ∷ answers a calls s'

-- A measurement takes at most one of the room of a counter.
abbrev pub RoomFor : ℕ → AlertState → Type 0
RoomFor n s = (neg_part s.count ≡ 0) × (pos_part s.count + n ≤ max_int64)

RoomFor-bump : (c : AlertType) (n : ℕ) (s : AlertState) → RoomFor (suc n) s → RoomFor n (bump c s)
RoomFor-bump c n s room = ground arith

RoomFor-suc : (n : ℕ) (s : AlertState) → RoomFor (suc n) s → RoomFor n s
RoomFor-suc n s room = ground arith

RoomFor-HasRoom : (n : ℕ) (s : AlertState) → RoomFor (suc n) s → HasRoom s
RoomFor-HasRoom n s room = ground arith

module _ (a b : AlertStateStore) (la : StoreLaws a) (lb : StoreLaws b) where
  -- Both are ready and hold the same states of the valid types, with room for `n` measurements.
  pub record Agree (n : ℕ) (s : a.St) (s' : b.St) : Type 0 where
    pub ready : la.Ready s
    pub ready' : lb.Ready s'
    pub same : (t : AlertType) → valid_alert_type t ≡ true → la.view s t ≡ lb.view s' t
    pub room : (t : AlertType) → valid_alert_type t ≡ true → RoomFor n (la.view s t)

  -- The same change of both.
  changed-Agree :
      (t : AlertType) (new new' : AlertState) (n : ℕ) (s s1 : a.St) (s' s1' : b.St)
      → Agree (suc n) s s'
      → new ≡ new'
      → RoomFor n new
      → la.Ready s1
      → lb.Ready s1'
      → ((u : AlertType)
          → valid_alert_type u ≡ true
          → la.view s1 u ≡ with_state t new (la.view s) u)
      → ((u : AlertType)
          → valid_alert_type u ≡ true
          → lb.view s1' u ≡ with_state t new' (lb.view s') u)
      → Agree n s1 s1'
  changed-Agree t new new' n s s1 s' s1' h e fits r r' v v' = record {
    ready = r;
    ready' = r';
    same = λ u w. rw (v u w, v' u w, e, h.same u w);
    room = λ u w. rw (v u w) (elim (Bool-cases (str_eq u t)) [
      | inl here ↦ rw here fits
      | inr other ↦ rw other (RoomFor-suc n (la.view s u) (h.room u w))
    ]);
  }

  -- One call gives the same to both, and they still agree.
  answer-Agree :
      (c : Call) (n : ℕ) (s : a.St) (s' : b.St)
      → IsValidCall c
      → Agree (suc n) s s'
      → ((answer a c s).0 ≡ (answer b c s').0) × Agree n (answer a c s).1 (answer b c s').1
  answer-Agree (increment t c) n s s' v h =
      let room = h.room t v in
      let has = RoomFor-HasRoom n (la.view s t) room in
      let (s1, e, r, w) = la.increment_law t c s v h.ready has in
      let (s1', e', r', w') = lb.increment_law t c s' v h.ready' (subst HasRoom (h.same t v) has) in
      rw (e, e')
        (
          ap (λ x. counted (ok (bump c x).count)) (h.same t v),
          changed-Agree t _ _ n s s1 s' s1' h (ap (bump c) (h.same t v))
              (RoomFor-bump c n (la.view s t) room) r r' w w',
        )
  answer-Agree (ask t) n s s' v h =
      let (s1, e, r, w) = la.is_active_law t s v h.ready in
      let (s1', e', r', w') = lb.is_active_law t s' v h.ready' in
      rw (e, e')
        (
          ap (λ x. asked (ok x.active)) (h.same t v),
          record {
            ready = r;
            ready' = r';
            same = λ u valid. w u ∙ h.same u valid ∙ sym (w' u);
            room = λ u valid. rw (w u) (RoomFor-suc n (la.view s u) (h.room u valid));
          },
        )
  answer-Agree (mark t x) n s s' v h =
      let (s1, e, r, w) = la.set_active_law t x s v h.ready in
      let (s1', e', r', w') = lb.set_active_law t x s' v h.ready' in
      rw (e, e')
        (
          refl,
          changed-Agree t _ _ n s s1 s' s1' h
              (ap {A = AlertState} (λ st. record st { active = x }) (h.same t v))
              (RoomFor-suc n (la.view s t) (h.room t v)) r r' w w',
        )

  pub answers-Agree :
      (calls : List Call) (s : a.St) (s' : b.St)
      → All IsValidCall calls
      → Agree (length calls) s s'
      → answers a calls s ≡ answers b calls s'
  answers-Agree [] s s' v h = refl
  answers-Agree (c ∷ calls) s s' (v, vs) h =
      let (same, next) = answer-Agree c (length calls) s s' v h in
      ap₂ (λ x xs. x ∷ xs) same (answers-Agree calls _ _ vs next)

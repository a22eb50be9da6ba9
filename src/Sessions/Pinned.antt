-- ===== src/Sessions/Pinned.antt =====
-- A session that a job has pinned, of helper/helper_app/sessions.py: whatever happens to the store.
use mathlib.Core.Path.{subst}
use vmware_migration_helper.Base.{
  ℕ, ◌≡◌, refl, arith, Bool, true, false, not, ◌&&◌, Option, none, some, List, [], ◌∷◌, map, String,
  ◌=s=◌, eq_iff, Bool-cases, inl, inr, All, All-append, if_elim,
}
use vmware_migration_helper.Sessions.{
  UserSession, touch, expired, pin, unpin, kill, close_if, is_empty, discard, add, has,
  SessionStore, create, with_ttl, set_ttl, take_expired, sweep, find, change, touched, get,
  dropped_by, logout, pin_job, unpin_job,
}
use vmware_migration_helper.Sessions.Lifetime.{
  IsSound, Op, create_op, set_ttl_op, get_op, logout_op, sweep_op, pin_op, unpin_op, apply,
  apply_all, apply_all-IsSound, without-All, keep_live-All,
}

-- A session with the token is pinned by the job, and its connections are open.
abbrev pub IsHeld : String → String → UserSession → Type 0
IsHeld token id s = s.token =s= token ≡ true → (has id s.pins ≡ true) × (s.closed ≡ false)

pub record AllHeld (token id : String) (st : SessionStore) : Type 0 where
  pub listed : All (IsHeld token id) st.sessions
  pub left : All (IsHeld token id) st.dropped

-- The operation neither unpins the job from the token's session nor makes a session of the token.
abbrev pub leaves : String → String → Op → Bool
leaves token id (create_op t now) = not (t =s= token)
leaves token id (unpin_op t i) = not (t =s= token && i =s= id)
leaves token id _ = true

has-add : (id other : String) (xs : List String) → has id xs ≡ true → has id (add other xs) ≡ true
unfolding add
has-add id other xs h = if_elim (λ l. has id l ≡ true) (has other xs) h (ground arith)

has-discard :
    (id other : String) (xs : List String)
    → other =s= id ≡ false
    → has id xs ≡ true
    → has id (discard other xs) ≡ true
unfolding discard
has-discard id other [] n h = h
has-discard id other (x ∷ xs) n h = elim (Bool-cases (x =s= other)) [
  | inl e ↦ rw e (ground (arith, eq_iff x other, eq_iff x id, eq_iff other id))
  | inr e ↦ rw e (elim (Bool-cases (x =s= id)) [
    | inl f ↦ rw f refl
    | inr f ↦ rw f (has-discard id other xs n (rw f at h))
  ])
]

not_empty : (id : String) (xs : List String) → has id xs ≡ true → is_empty xs ≡ false
not_empty id [] h = cc
not_empty id (x ∷ xs) h = refl

module _ (token id : String) where
  -- A kill leaves the connections to the job.
  kill-IsHeld : (s : UserSession) → IsHeld token id s → IsHeld token id (kill s)
  unfolding kill
  kill-IsHeld s h = elim (Bool-cases (is_empty s.pins)) [
    | inl e ↦ rw e (λ t. absurd (cc (not_empty id s.pins (h t).0)))
    | inr e ↦ rw e h
  ]

  pin-IsHeld :
      (other : String) (s : UserSession) → IsHeld token id s → IsHeld token id (pin other s)
  unfolding pin
  pin-IsHeld other s h t = (has-add id other s.pins (h t).0, (h t).1)

  unpin-IsHeld :
      (t i : String) (s : UserSession)
      → not (t =s= token && i =s= id) ≡ true
      → s.token =s= t ≡ true
      → IsHeld token id s
      → IsHeld token id (unpin i s)
  unfolding unpin
  unpin-IsHeld t i s n e h = if_empty (s.dead && is_empty (discard i s.pins)) refl
    where
      still : s.token =s= token ≡ true → has id (discard i s.pins) ≡ true
      still u =
          has-discard id i s.pins
            (ground (arith, eq_iff s.token t, eq_iff s.token token, eq_iff t token)) (h u).0

      if_empty :
          (b : Bool)
          → (s.dead && is_empty (discard i s.pins)) ≡ b
          → IsHeld token id (close_if b (record s { pins = discard i s.pins }))
      if_empty true f u = absurd (ground (arith, not_empty id (discard i s.pins) (still u)))
      if_empty false f u = (still u, (h u).1)

  change-IsHeld :
      (t : String) (f : UserSession → UserSession)
      → ((s : UserSession) → s.token =s= t ≡ true → IsHeld token id s → IsHeld token id (f s))
      → (ss : List UserSession) → All (IsHeld token id) ss
      → All (IsHeld token id) (change t f ss)
  unfolding change
  change-IsHeld t f g [] h = tt
  change-IsHeld t f g (s ∷ ss) h = elim (Bool-cases (s.token =s= t)) [
    | inl e ↦ rw e (g s e h.0, h.1)
    | inr e ↦ rw e (h.0, change-IsHeld t f g ss h.1)
  ]

  take_expired-IsHeld :
      (now : ℕ) (ss : List UserSession)
      → All (IsHeld token id) ss
      → All (IsHeld token id) (take_expired now ss)
  unfolding take_expired
  take_expired-IsHeld now [] h = tt
  take_expired-IsHeld now (s ∷ ss) h =
      if_elim (All (IsHeld token id)) (expired now s)
        (kill-IsHeld s h.0, take_expired-IsHeld now ss h.1) (take_expired-IsHeld now ss h.1)

  with_ttl-IsHeld :
      (ttl : ℕ) (ss : List UserSession)
      → All (IsHeld token id) ss
      → All (IsHeld token id) (map (with_ttl ttl) ss)
  with_ttl-IsHeld ttl [] h = tt
  with_ttl-IsHeld ttl (s ∷ ss) h = (h.0, with_ttl-IsHeld ttl ss h.1)

  find-IsHeld :
      (t : String) (ss : List UserSession) (s : UserSession)
      → All (IsHeld token id) ss
      → find t ss ≡ some s
      → IsHeld token id s
  unfolding find
  find-IsHeld t [] s h e = absurd (cc)
  find-IsHeld t (x ∷ ss) s h e = elim (Bool-cases (x.token =s= t)) [
    | inl f ↦ let same : x ≡ s = cc (rw f at e) in subst (IsHeld token id) same h.0
    | inr f ↦ find-IsHeld t ss s h.1 (rw f at e)
  ]

  sweep-AllHeld :
      (now : ℕ) (st : SessionStore) → AllHeld token id st → AllHeld token id (sweep now st)
  unfolding sweep
  sweep-AllHeld now st h = record {
    listed = keep_live-All (IsHeld token id) now st.sessions h.listed;
    left =
        All-append (IsHeld token id) (take_expired now st.sessions) st.dropped
          (take_expired-IsHeld now st.sessions h.listed) h.left;
  }

  touched-AllHeld :
      (t : String) (now : ℕ) (st : SessionStore) (o : Option UserSession)
      → AllHeld token id st
      → AllHeld token id (touched t now st o).0
  unfolding touched
  touched-AllHeld t now st none h = h
  touched-AllHeld t now st (some s) h =
      if_elim (λ (r : SessionStore × Option UserSession). AllHeld token id r.0) s.dead h
        record {
          listed = change-IsHeld t (touch now) (λ x e k. k) st.sessions h.listed;
          left = h.left;
        }

  logout-AllHeld :
      (t : String) (st : SessionStore) (o : Option UserSession)
      → find t st.sessions ≡ o
      → AllHeld token id st
      → AllHeld token id (dropped_by t st o)
  unfolding dropped_by
  logout-AllHeld t st none e h = h
  logout-AllHeld t st (some s) e h = record {
    listed = without-All (IsHeld token id) t st.sessions h.listed;
    left = (kill-IsHeld s (find-IsHeld t st.sessions s h.listed e), h.left);
  }

  apply-AllHeld :
      (op : Op) (st : SessionStore)
      → leaves token id op ≡ true
      → AllHeld token id st
      → AllHeld token id (apply op st)
  unfolding apply create set_ttl get logout pin_job unpin_job
  apply-AllHeld (create_op t now) st n h = record {
    listed = (λ e. absurd (ground (arith, eq_iff t token)), h.listed);
    left = h.left;
  }
  apply-AllHeld (set_ttl_op ttl) st n h = record {
    listed = with_ttl-IsHeld ttl st.sessions h.listed;
    left = h.left;
  }
  apply-AllHeld (get_op t now) st n h =
      if_elim (λ (r : SessionStore × Option UserSession). AllHeld token id r.0) (t =s= "") h
        (touched-AllHeld t now (sweep now st) (find t (sweep now st).sessions)
          (sweep-AllHeld now st h))
  apply-AllHeld (logout_op t) st n h =
      if_elim (AllHeld token id) (t =s= "") h (logout-AllHeld t st (find t st.sessions) refl h)
  apply-AllHeld (sweep_op now) st n h = sweep-AllHeld now st h
  apply-AllHeld (pin_op t i) st n h = record {
    listed = change-IsHeld t (pin i) (λ s e. pin-IsHeld i s) st.sessions h.listed;
    left = change-IsHeld t (pin i) (λ s e. pin-IsHeld i s) st.dropped h.left;
  }
  apply-AllHeld (unpin_op t i) st n h = record {
    listed = change-IsHeld t (unpin i) (λ s e. unpin-IsHeld t i s n e) st.sessions h.listed;
    left = change-IsHeld t (unpin i) (λ s e. unpin-IsHeld t i s n e) st.dropped h.left;
  }

-- Before the end of the program, in any order of requests, sweeps and jobs, and while a job does not unpin its session and no new session gets the
-- same token: a session with the token that the job has pinned while it was open stays pinned by the job with
-- its connections open, also after its logout or its expiry. All the while, a session that the store lists
-- is alive with its connections open, and one that was logged out or expired is dead, with its
-- connections closed unless a job pins it.
pub apply_all-AllHeld :
    (token id : String) (ops : List Op) (st : SessionStore)
    → All (λ op. leaves token id op ≡ true) ops
    → IsSound st
    → AllHeld token id st
    → IsSound (apply_all ops st) × AllHeld token id (apply_all ops st)
unfolding apply_all
apply_all-AllHeld token id ops st n sound h = (apply_all-IsSound ops st sound, held ops st n h)
  where
    held :
        (ops : List Op) (st : SessionStore)
        → All (λ op. leaves token id op ≡ true) ops
        → AllHeld token id st
        → AllHeld token id (apply_all ops st)
    held [] st n h = h
    held (op ∷ ops) st n h = held ops (apply op st) n.1 (apply-AllHeld token id op st n.0 h)

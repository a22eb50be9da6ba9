-- ===== src/Sessions/Lifetime.antt =====
-- When the connections of a session are closed, of helper/helper_app/sessions.py.
use vmware_migration_helper.Base.{
  ℕ, ◌≡◌, refl, Bool, true, false, Option, none, some, List, [], ◌∷◌, map, String, ◌=s=◌,
  if◌then◌else◌, All, All-append, if_elim,
}
use vmware_migration_helper.Sessions.{
  UserSession, touch, expired, pin, unpin, kill, close_if, is_empty, discard, add, has,
  SessionStore, create, with_ttl, set_ttl, keep_live, take_expired, sweep, find, change, without,
  touched, get, dropped_by, logout, pin_job, unpin_job,
}

-- A session that the store lists: alive, and its connections are open.
pub record IsLive (s : UserSession) : Type 0 where
  pub alive : s.dead ≡ false
  pub opened : s.closed ≡ false

-- One that left the store: dead, and its connections are closed unless a job pins it.
pub record IsReleased (s : UserSession) : Type 0 where
  pub over : s.dead ≡ true
  pub shut : is_empty s.pins ≡ true → s.closed ≡ true

pub record IsSound (st : SessionStore) : Type 0 where
  pub listed : All IsLive st.sessions
  pub released : All IsReleased st.dropped

kill-IsReleased : (s : UserSession) → IsReleased (kill s)
unfolding kill
kill-IsReleased s = by_pins s.pins
  where
    by_pins :
        (p : List String) → IsReleased (close_if (is_empty p) (record s { dead = true; pins = p }))
    by_pins [] = record { over = refl; shut = λ e. refl }
    by_pins (x ∷ xs) = record { over = refl; shut = λ e. absurd (cc e) }

unpin-IsLive : (id : String) (s : UserSession) → IsLive s → IsLive (unpin id s)
unfolding unpin
unpin-IsLive id s h = rw h.alive record { alive = refl; opened = h.opened }

unpin-IsReleased : (id : String) (s : UserSession) → IsReleased s → IsReleased (unpin id s)
unfolding unpin
unpin-IsReleased id s h = rw h.over (by_left (discard id s.pins))
  where
    by_left :
        (p : List String) → IsReleased (close_if (is_empty p) (record s { pins = p; dead = true }))
    by_left [] = record { over = refl; shut = λ e. refl }
    by_left (x ∷ xs) = record { over = refl; shut = λ e. absurd (cc e) }

add-is_empty : (id : String) (xs : List String) → is_empty (add id xs) ≡ false
unfolding add
add-is_empty id [] = refl
add-is_empty id (x ∷ xs) = both (has id (x ∷ xs))
  where
    both : (b : Bool) → is_empty (if b then x ∷ xs else id ∷ x ∷ xs) ≡ false
    both true = refl
    both false = refl

pin-IsLive : (id : String) (s : UserSession) → IsLive s → IsLive (pin id s)
unfolding pin
pin-IsLive id s h = record { alive = h.alive; opened = h.opened }

pin-IsReleased : (id : String) (s : UserSession) → IsReleased s → IsReleased (pin id s)
unfolding pin
pin-IsReleased id s h = record {
  over = h.over;
  shut = λ e. absurd (cc (e, add-is_empty id s.pins));
}

touch-IsLive : (now : ℕ) (s : UserSession) → IsLive s → IsLive (touch now s)
touch-IsLive now s h = record { alive = h.alive; opened = h.opened }

module _ (P : UserSession → Type 0) where
  change-All :
      (token : String) (f : UserSession → UserSession)
      → ((s : UserSession) → P s → P (f s))
      → (ss : List UserSession) → All P ss
      → All P (change token f ss)
  unfolding change
  change-All token f g [] h = tt
  change-All token f g (s ∷ ss) h =
      if_elim (All P) (s.token =s= token) (g s h.0, h.1) (h.0, change-All token f g ss h.1)

  pub without-All : (token : String) (ss : List UserSession) → All P ss → All P (without token ss)
  unfolding without
  without-All token [] h = tt
  without-All token (s ∷ ss) h =
      if_elim (All P) (s.token =s= token) (h.1) (h.0, without-All token ss h.1)

  pub keep_live-All : (now : ℕ) (ss : List UserSession) → All P ss → All P (keep_live now ss)
  unfolding keep_live
  keep_live-All now [] h = tt
  keep_live-All now (s ∷ ss) h =
      if_elim (All P) (expired now s) (keep_live-All now ss h.1) (h.0, keep_live-All now ss h.1)

take_expired-All : (now : ℕ) (ss : List UserSession) → All IsReleased (take_expired now ss)
unfolding take_expired
take_expired-All now [] = tt
take_expired-All now (s ∷ ss) =
    if_elim (All IsReleased) (expired now s) (kill-IsReleased s, take_expired-All now ss)
      (take_expired-All now ss)

with_ttl-All :
    (ttl : ℕ) (ss : List UserSession) → All IsLive ss → All IsLive (map (with_ttl ttl) ss)
with_ttl-All ttl [] h = tt
with_ttl-All ttl (s ∷ ss) h =
    (record { alive = h.0.alive; opened = h.0.opened }, with_ttl-All ttl ss h.1)

sweep-IsSound : (now : ℕ) (st : SessionStore) → IsSound st → IsSound (sweep now st)
unfolding sweep
sweep-IsSound now st h = record {
  listed = keep_live-All IsLive now st.sessions h.listed;
  released =
      All-append IsReleased (take_expired now st.sessions) st.dropped
        (take_expired-All now st.sessions) h.released;
}

-- What the web requests and the runner's threads do to the store.
pub data Op : Type 0 where
  create_op : String → ℕ → Op
  set_ttl_op : ℕ → Op
  get_op : String → ℕ → Op
  logout_op : String → Op
  sweep_op : ℕ → Op
  pin_op : String → String → Op
  unpin_op : String → String → Op

unfoldable pub apply : Op → SessionStore → SessionStore
apply (create_op token now) st = create token now st
apply (set_ttl_op ttl) st = set_ttl ttl st
apply (get_op token now) st = (get token now st).0
apply (logout_op token) st = logout token st
apply (sweep_op now) st = sweep now st
apply (pin_op token id) st = pin_job token id st
apply (unpin_op token id) st = unpin_job token id st

unfoldable pub apply_all : List Op → SessionStore → SessionStore
apply_all [] st = st
apply_all (op ∷ ops) st = apply_all ops (apply op st)

touched-IsSound :
    (token : String) (now : ℕ) (st : SessionStore) (o : Option UserSession)
    → IsSound st
    → IsSound (touched token now st o).0
unfolding touched
touched-IsSound token now st none h = h
touched-IsSound token now st (some s) h =
    if_elim (λ (r : SessionStore × Option UserSession). IsSound r.0) s.dead h
      record {
        listed = change-All IsLive token (touch now) (touch-IsLive now) st.sessions h.listed;
        released = h.released;
      }

get-IsSound :
    (token : String) (now : ℕ) (st : SessionStore) → IsSound st → IsSound (get token now st).0
unfolding get
get-IsSound token now st h =
    if_elim (λ (r : SessionStore × Option UserSession). IsSound r.0) (token =s= "") h
      (touched-IsSound token now (sweep now st) (find token (sweep now st).sessions)
        (sweep-IsSound now st h))

logout-IsSound : (token : String) (st : SessionStore) → IsSound st → IsSound (logout token st)
unfolding logout dropped_by
logout-IsSound token st h = if_elim IsSound (token =s= "") h (by_found (find token st.sessions))
  where
    by_found : (o : Option UserSession) → IsSound (dropped_by token st o)
    by_found none = h
    by_found (some s) = record {
      listed = without-All IsLive token st.sessions h.listed;
      released = (kill-IsReleased s, h.released);
    }

apply-IsSound : (op : Op) (st : SessionStore) → IsSound st → IsSound (apply op st)
unfolding apply create set_ttl pin_job unpin_job
apply-IsSound (create_op token now) st h = record {
  listed = (record { alive = refl; opened = refl }, h.listed);
  released = h.released;
}
apply-IsSound (set_ttl_op ttl) st h = record {
  listed = with_ttl-All ttl st.sessions h.listed;
  released = h.released;
}
apply-IsSound (get_op token now) st h = get-IsSound token now st h
apply-IsSound (logout_op token) st h = logout-IsSound token st h
apply-IsSound (sweep_op now) st h = sweep-IsSound now st h
apply-IsSound (pin_op token id) st h = record {
  listed = change-All IsLive token (pin id) (pin-IsLive id) st.sessions h.listed;
  released = change-All IsReleased token (pin id) (pin-IsReleased id) st.dropped h.released;
}
apply-IsSound (unpin_op token id) st h = record {
  listed = change-All IsLive token (unpin id) (unpin-IsLive id) st.sessions h.listed;
  released = change-All IsReleased token (unpin id) (unpin-IsReleased id) st.dropped h.released;
}

-- Whatever the requests and the jobs do, and in any order, a session that the store lists is alive with
-- its connections open, and one that was logged out or expired is dead, with its connections closed
-- unless a job pins it.
pub apply_all-IsSound :
    (ops : List Op) (st : SessionStore) → IsSound st → IsSound (apply_all ops st)
unfolding apply_all
apply_all-IsSound [] st h = h
apply_all-IsSound (op ∷ ops) st h = apply_all-IsSound ops (apply op st) (apply-IsSound op st h)

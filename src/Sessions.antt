-- ===== src/Sessions.antt =====
-- helper/helper_app/sessions.py: the web UI's sessions, their pins by running jobs, and the store by token.
-- A clock reading is a number of seconds; the lock of a session, and that of the store, make each
-- method one step. `closed` stands for the effect of `_close_backends` on the connections to vCenter,
-- Azure and GCP. A session that has left the store lives on in `dropped`, since the runner still holds it.
pub mod Lifetime
pub mod Pinned
use vmware_migration_helper.Base.{
  ℕ, ◌-◌, Bool, true, false, not, ◌&&◌, Option, none, some, List, [], ◌∷◌, ◌++◌, map, String, ◌=s=◌,
  ltb, if◌then◌else◌, any,
}

pub record UserSession : Type 0 where
  pub token : String
  pub ttl_s : ℕ
  pub last_used : ℕ
  pub pins : List String
  pub dead : Bool
  pub closed : Bool

abbrev pub touch : ℕ → UserSession → UserSession
touch now s = record s { last_used = now }

-- `expired`: `idle_s > ttl_s`
abbrev pub expired : ℕ → UserSession → Bool
expired now s = ltb s.ttl_s (now - s.last_used)

abbrev pub has : String → List String → Bool
has id xs = any (λ x. x =s= id) xs

-- `set.add`
unfoldable pub add : String → List String → List String
add id xs = if has id xs then xs else id ∷ xs

-- `set.discard`, on a set without duplicates
unfoldable pub discard : String → List String → List String
discard id [] = []
discard id (x ∷ xs) = let rest = discard id xs in if x =s= id then xs else x ∷ rest

abbrev pub is_empty : List String → Bool
is_empty [] = true
is_empty (x ∷ xs) = false

unfoldable pub pin : String → UserSession → UserSession
pin id s = record s { pins = add id s.pins }

abbrev pub close_backends : UserSession → UserSession
close_backends s = record s { closed = true }

abbrev pub close_if : Bool → UserSession → UserSession
close_if true s = close_backends s
close_if false s = s

unfoldable pub unpin : String → UserSession → UserSession
unpin id s =
    let left = discard id s.pins in close_if (s.dead && is_empty left) (record s { pins = left })

unfoldable pub kill : UserSession → UserSession
kill s = close_if (is_empty s.pins) (record s { dead = true })

-- `SessionStore`
pub record SessionStore : Type 0 where
  pub ttl_s : ℕ
  pub sessions : List UserSession
  pub dropped : List UserSession

-- `create`, with the token that the generator of random tokens gave, which no session has yet
unfoldable pub create : String → ℕ → SessionStore → SessionStore
create token now st = record st {
  sessions =
      record {
        token = token;
        ttl_s = st.ttl_s;
        last_used = now;
        pins = [];
        dead = false;
        closed = false;
      }
      ∷ st.sessions;
}

abbrev pub with_ttl : ℕ → UserSession → UserSession
with_ttl ttl s = record s { ttl_s = ttl }

unfoldable pub set_ttl : ℕ → SessionStore → SessionStore
set_ttl ttl st = record st { ttl_s = ttl; sessions = map (with_ttl ttl) st.sessions }

-- The sessions that stay at a sweep, and those that go.
unfoldable pub keep_live : ℕ → List UserSession → List UserSession
keep_live now [] = []
keep_live now (s ∷ ss) = let rest = keep_live now ss in if expired now s then rest else s ∷ rest

unfoldable pub take_expired : ℕ → List UserSession → List UserSession
take_expired now [] = []
take_expired now (s ∷ ss) =
    let rest = take_expired now ss in if expired now s then kill s ∷ rest else rest

unfoldable pub sweep : ℕ → SessionStore → SessionStore
sweep now st = record st {
  sessions = keep_live now st.sessions;
  dropped = take_expired now st.sessions ++ st.dropped;
}

unfoldable pub find : String → List UserSession → Option UserSession
find token [] = none
find token (s ∷ ss) = if s.token =s= token then some s else find token ss

unfoldable pub change : String → (UserSession → UserSession) → List UserSession → List UserSession
change token f [] = []
change token f (s ∷ ss) = if s.token =s= token then f s ∷ ss else s ∷ change token f ss

unfoldable pub without : String → List UserSession → List UserSession
without token [] = []
without token (s ∷ ss) = let rest = without token ss in if s.token =s= token then ss else s ∷ rest

touched : String → ℕ → SessionStore → Option UserSession → SessionStore × Option UserSession
touched token now st none = (st, none)
touched token now st (some s) =
    if s.dead
    then (st, none)
    else (record st { sessions = change token (touch now) st.sessions }, some (touch now s))

-- `get`; a missing token is the empty one
unfoldable pub get : String → ℕ → SessionStore → SessionStore × Option UserSession
unfolding touched
get token now st =
    if token =s= ""
    then (st, none)
    else touched token now (sweep now st) (find token (sweep now st).sessions)

dropped_by : String → SessionStore → Option UserSession → SessionStore
dropped_by token st none = st
dropped_by token st (some s) = record st {
  sessions = without token st.sessions;
  dropped = kill s ∷ st.dropped;
}

unfoldable pub logout : String → SessionStore → SessionStore
unfolding dropped_by
logout token st = if token =s= "" then st else dropped_by token st (find token st.sessions)

-- `close_all`, at the end of the program, closes the connections whatever is pinned.
unfoldable pub close_all : SessionStore → SessionStore
close_all st = record st { sessions = []; dropped = map close_backends st.sessions ++ st.dropped }

-- A job that starts pins its session, and one that ends unpins it; the session may have left the store.
unfoldable pub pin_job : String → String → SessionStore → SessionStore
pin_job token id st = record st {
  sessions = change token (pin id) st.sessions;
  dropped = change token (pin id) st.dropped;
}

unfoldable pub unpin_job : String → String → SessionStore → SessionStore
unpin_job token id st = record st {
  sessions = change token (unpin id) st.sessions;
  dropped = change token (unpin id) st.dropped;
}

-- ===== src/Disk/Pipeline/Refines.antt =====
-- Feeding through the pipeline of helper/helper_app/disk/pipeline.py is feeding the decoder.
use vmware_migration_helper.Base.{
  ℕ, ◌≡◌, refl, sym, ap, ◌∙◌, Option, none, some, List, [], ◌∷◌, ◌++◌, append_assoc,
}
use mathlib.Core.Path.{subst}
use mathlib.Core.Option.{some-injective}
use vmware_migration_helper.Base.Bytes.{Bytes}
use vmware_migration_helper.Disk.Vmdk.{Result, ok, err, Error, ◌>>=◌}
use vmware_migration_helper.Disk.Vmdk.Decoder.{
  Config, Decoder, DecodeStats, new, feed, finish, feed_all, decode,
}
use vmware_migration_helper.Disk.Pipeline.{
  Caller, feeding, putting, closing, joining, returned, Worker, waiting, emptying, done, decoding,
  Shared, Move, feed_nothing, look, feed_raises, put, put_raises, finish_looks, finish_raises,
  close, joined, joined_raises, get, get_end, decode_chunk, decode_raises, drop, leave, Run, start,
  later, init,
}

-- The decoder fed with the chunks and finished.
abbrev pub direct : Config → List Bytes → Decoder → Result DecodeStats
direct cfg chunks d = feed_all cfg chunks d >>= finish

-- The chunks before the end mark, and whether the queue is open or ends with the mark.
abbrev pub chunks_of : List (Option Bytes) → List Bytes
chunks_of [] = []
chunks_of (none ∷ q) = []
chunks_of (some c ∷ q) = c ∷ chunks_of q

abbrev pub IsOpen : List (Option Bytes) → Type 0
IsOpen [] = Unit
IsOpen (none ∷ q) = ⊥
IsOpen (some c ∷ q) = IsOpen q

abbrev pub IsClosed : List (Option Bytes) → Type 0
IsClosed [] = ⊥
IsClosed (none ∷ q) = q ≡ []
IsClosed (some c ∷ q) = IsClosed q

IsOpen-put : (c : Bytes) (q : List (Option Bytes)) → IsOpen q → IsOpen (q ++ some c ∷ [])
IsOpen-put c [] h = tt
IsOpen-put c (none ∷ q) h = absurd h
IsOpen-put c (some x ∷ q) h = IsOpen-put c q h

chunks_of-put :
    (c : Bytes) (rest : List Bytes) (q : List (Option Bytes))
    → IsOpen q
    → chunks_of (q ++ some c ∷ []) ++ rest ≡ chunks_of q ++ c ∷ rest
chunks_of-put c rest [] h = refl
chunks_of-put c rest (none ∷ q) h = absurd h
chunks_of-put c rest (some x ∷ q) h = ap (λ xs. x ∷ xs) (chunks_of-put c rest q h)

IsClosed-end : (q : List (Option Bytes)) → IsOpen q → IsClosed (q ++ none ∷ [])
IsClosed-end [] h = refl
IsClosed-end (none ∷ q) h = absurd h
IsClosed-end (some x ∷ q) h = IsClosed-end q h

chunks_of-end :
    (q : List (Option Bytes)) → IsOpen q → chunks_of (q ++ none ∷ []) ≡ chunks_of q ++ []
chunks_of-end [] h = refl
chunks_of-end (none ∷ q) h = absurd h
chunks_of-end (some x ∷ q) h = ap (λ xs. x ∷ xs) (chunks_of-end q h)

-- What the worker is at, before the queue.
abbrev pub at_work : Worker → List Bytes
at_work (decoding c) = c ∷ []
at_work _ = []

abbrev pub IsDown : Worker → Type 0
IsDown emptying = Unit
IsDown done = Unit
IsDown _ = ⊥

abbrev pub IsPutting : Caller → Type 0
IsPutting (feeding rest) = Unit
IsPutting (putting c rest) = Unit
IsPutting closing = Unit
IsPutting _ = ⊥

abbrev pub IsLive : Caller → Type 0
IsLive (returned r) = ⊥
IsLive _ = Unit

IsPutting-IsLive : (c : Caller) → IsPutting c → IsLive c
IsPutting-IsLive (returned r) p = absurd p
IsPutting-IsLive _ p = tt

-- What is left to put by the caller.
abbrev pub to_put : Caller → List Bytes
to_put (feeding rest) = rest
to_put (putting c rest) = c ∷ rest
to_put _ = []

abbrev pub IsUp : Worker → Type 0
IsUp waiting = Unit
IsUp (decoding c) = Unit
IsUp _ = ⊥

module _ (cfg : Config) (expected : Result DecodeStats) where
  -- With no error, and the worker's queue open: all that is left gives what is expected.
  pub record Open (s : Shared) (c : Caller) (w : Worker) : Type 0 where
    pub up : IsUp w
    pub shape : IsOpen s.queue
    pub rest : direct cfg (at_work w ++ (chunks_of s.queue ++ to_put c)) s.decoder ≡ expected

  pub record Closed (s : Shared) (w : Worker) : Type 0 where
    pub up : IsUp w
    pub shape : IsClosed s.queue
    pub rest : direct cfg (at_work w ++ chunks_of s.queue) s.decoder ≡ expected

  abbrev pub Joining : Shared → Worker → Type 0
  Joining s done = finish s.decoder ≡ expected
  Joining s waiting = Closed s waiting
  Joining s (decoding c) = Closed s (decoding c)
  Joining s emptying = ⊥

  -- What an end of the caller, an error, and the lack of one say.
  pub data Good (s : Shared) : Caller → Worker → Type 0 where
    ended : {w : Worker} (r : Result DecodeStats) → r ≡ expected → Good s (returned r) w
    failed :
        {c : Caller} {w : Worker} (e : Error)
        → IsLive c
        → s.error ≡ some e
        → IsDown w
        → err e ≡ expected
        → Good s c w
    open_queue : {c : Caller} {w : Worker} → s.error ≡ none → IsPutting c → Open s c w → Good s c w
    closed_queue : {w : Worker} → s.error ≡ none → Joining s w → Good s joining w

  raises :
      (s : Shared) (c : Caller) (w : Worker) (e : Error)
      → IsPutting c
      → s.error ≡ some e
      → Good s c w
      → err e ≡ expected
  raises s c w e p h (ended r x) = absurd p
  raises s c w e p h (failed e' l h' d x) = rw (some-injective _ _ (sym h ∙ h')) x
  raises s c w e p h (open_queue n q o) = absurd (cc (h, n))
  raises s joining w e p h (closed_queue n j) = absurd p

  Open-to :
      {s : Shared} {c c' : Caller} {w : Worker}
      → direct cfg (at_work w ++ (chunks_of s.queue ++ to_put c')) s.decoder
        ≡ direct cfg (at_work w ++ (chunks_of s.queue ++ to_put c)) s.decoder
      → Open s c w
      → Open s c' w
  Open-to e o = record { up = o.up; shape = o.shape; rest = e ∙ o.rest }

  -- The caller's moves.
  put_Open :
      {s : Shared} {c : Bytes} {rest : List Bytes} {w : Worker}
      → Open s (putting c rest) w
      → Open (record s { queue = s.queue ++ some c ∷ [] }) (feeding rest) w
  put_Open {s} {c} {rest} {w} o = record {
    up = o.up;
    shape = IsOpen-put c s.queue o.shape;
    rest =
        ap (λ xs. direct cfg (at_work w ++ xs) s.decoder) (chunks_of-put c rest s.queue o.shape)
        ∙ o.rest;
  }

  close_Closed :
      {s : Shared} {w : Worker}
      → Open s closing w
      → Closed (record s { queue = s.queue ++ none ∷ [] }) w
  close_Closed {s} {w} o = record {
    up = o.up;
    shape = IsClosed-end s.queue o.shape;
    rest =
        ap (λ xs. direct cfg (at_work w ++ xs) s.decoder) (chunks_of-end s.queue o.shape) ∙ o.rest;
  }

  up_joins : {s : Shared} (w : Worker) → Closed s w → Joining s w
  up_joins waiting h = h
  up_joins (decoding c) h = h
  up_joins emptying h = absurd h.up
  up_joins done h = absurd h.up

  -- The worker's moves.
  decoded :
      (chunk : Bytes) (xs : List Bytes) (d d' : Decoder)
      → feed cfg chunk d ≡ ok d'
      → direct cfg (chunk ∷ xs) d ≡ direct cfg xs d'
  unfolding feed_all
  decoded chunk xs d d' e = rw e refl

  decode_err :
      (chunk : Bytes) (xs : List Bytes) (d : Decoder) (e : Error)
      → feed cfg chunk d ≡ err e
      → direct cfg (chunk ∷ xs) d ≡ err e
  unfolding feed_all
  decode_err chunk xs d e h = rw h refl

  get_Open :
      {s : Shared} {c : Caller} {chunk : Bytes} {q : List (Option Bytes)}
      → s.queue ≡ some chunk ∷ q
      → Open s c waiting
      → Open (record s { queue = q }) c (decoding chunk)
  get_Open {s} {c} e o = record {
    up = tt;
    shape = subst IsOpen e o.shape;
    rest = ap (λ xs. direct cfg (chunks_of xs ++ to_put c) s.decoder) (sym e) ∙ o.rest;
  }

  get_Closed :
      {s : Shared} {chunk : Bytes} {q : List (Option Bytes)}
      → s.queue ≡ some chunk ∷ q
      → Closed s waiting
      → Closed (record s { queue = q }) (decoding chunk)
  get_Closed {s} e o = record {
    up = tt;
    shape = subst IsClosed e o.shape;
    rest = ap (λ xs. direct cfg (chunks_of xs) s.decoder) (sym e) ∙ o.rest;
  }

  end_reached :
      {s : Shared} {q : List (Option Bytes)}
      → s.queue ≡ none ∷ q
      → Closed s waiting
      → finish s.decoder ≡ expected
  unfolding feed_all
  end_reached {s} e o = ap (λ xs. direct cfg (chunks_of xs) s.decoder) (sym e) ∙ o.rest

  same_rest :
      (r : Result Decoder) (f g : Decoder → Result Decoder)
      → ((d : Decoder) → f d >>= finish ≡ g d >>= finish)
      → (r >>= f) >>= finish ≡ (r >>= g) >>= finish
  same_rest (ok d) f g h = h d
  same_rest (err e) f g h = refl

  skip_empty :
      (xs ys : List Bytes) (d : Decoder) → direct cfg (xs ++ ys) d ≡ direct cfg (xs ++ [] ∷ ys) d
  unfolding feed_all feed
  skip_empty [] ys d = refl
  skip_empty (x ∷ xs) ys d =
      same_rest (feed cfg x d) (feed_all cfg (xs ++ ys)) (feed_all cfg (xs ++ [] ∷ ys))
        (skip_empty xs ys)

  skip_Open :
      {s : Shared} {rest : List Bytes} {w : Worker}
      → Open s (feeding ([] ∷ rest)) w
      → Open s (feeding rest) w
  skip_Open {s} {rest} {w} o =
      Open-to
        (ap (λ xs. direct cfg xs s.decoder)
            (sym (append_assoc (at_work w) (chunks_of s.queue) rest))
          ∙ skip_empty (at_work w ++ chunks_of s.queue) rest s.decoder
          ∙ ap (λ xs. direct cfg xs s.decoder)
              (append_assoc (at_work w) (chunks_of s.queue) ([] ∷ rest)))
        o

  -- A move of the worker keeps what an end of the caller says, and an error of before.
  pub Move-Good :
      {depth : ℕ} {s t : Shared} {c c' : Caller} {w w' : Worker}
      → Move cfg depth s c w t c' w'
      → Good s c w
      → Good t c' w'
  Move-Good feed_nothing (failed e k h d x) = failed e tt h d x
  Move-Good feed_nothing (open_queue n p o) = open_queue n tt (skip_Open o)
  Move-Good (look h) (failed e k h' d x) = failed e tt h' d x
  Move-Good (look h) (open_queue n p o) = open_queue n tt (Open-to refl o)
  Move-Good (feed_raises {e} h) g = ended (err e) (raises _ _ _ e tt h g)
  Move-Good (put l) (failed e k h d x) = failed e tt h d x
  Move-Good (put l) (open_queue n p o) = open_queue n tt (put_Open o)
  Move-Good (put_raises {e} h) g = ended (err e) (raises _ _ _ e tt h g)
  Move-Good (finish_looks h) (failed e k h' d x) = failed e tt h' d x
  Move-Good (finish_looks h) (open_queue n p o) = open_queue n tt (Open-to refl o)
  Move-Good (finish_raises {e} h) g = ended (err e) (raises _ _ _ e tt h g)
  Move-Good (close l) (failed e k h d x) = failed e tt h d x
  Move-Good (close {w} l) (open_queue n p o) = closed_queue n (up_joins w (close_Closed o))
  Move-Good (joined h) (failed e k h' d x) = absurd (cc (h, h'))
  Move-Good (joined h) (open_queue n p o) = absurd p
  Move-Good (joined h) (closed_queue n j) = ended _ j
  Move-Good (joined_raises {e} h) (failed e' k h' d x) =
      ended (err e) (rw (some-injective _ _ (sym h ∙ h')) x)
  Move-Good (joined_raises h) (open_queue n p o) = absurd p
  Move-Good (joined_raises h) (closed_queue n j) = absurd (cc (h, n))
  Move-Good (get q) (ended r x) = ended r x
  Move-Good (get q) (failed e k h d x) = absurd d
  Move-Good (get q) (open_queue n p o) = open_queue n p (get_Open q o)
  Move-Good (get q) (closed_queue n j) = closed_queue n (get_Closed q j)
  Move-Good (get_end q) (ended r x) = ended r x
  Move-Good (get_end q) (failed e k h d x) = absurd d
  Move-Good (get_end q) (open_queue n p o) = absurd (subst IsOpen q o.shape)
  Move-Good (get_end q) (closed_queue n j) = closed_queue n (end_reached q j)
  Move-Good (decode_chunk f) (ended r x) = ended r x
  Move-Good (decode_chunk f) (failed e k h d x) = absurd d
  Move-Good (decode_chunk {chunk} {d} f) (open_queue n p o) =
      open_queue n p
        (record { up = tt; shape = o.shape; rest = sym (decoded chunk _ _ d f) ∙ o.rest })
  Move-Good (decode_chunk {chunk} {d} f) (closed_queue n j) =
      closed_queue n
        (record { up = tt; shape = j.shape; rest = sym (decoded chunk _ _ d f) ∙ j.rest })
  Move-Good (decode_raises f) (ended r x) = ended r x
  Move-Good (decode_raises f) (failed e k h d x) = absurd d
  Move-Good (decode_raises {chunk} {e} f) (open_queue n p o) =
      failed e (IsPutting-IsLive _ p) refl tt (sym (decode_err chunk _ _ e f) ∙ o.rest)
  Move-Good (decode_raises {chunk} {e} f) (closed_queue n j) =
      failed e tt refl tt (sym (decode_err chunk _ _ e f) ∙ j.rest)
  Move-Good (drop q) (ended r x) = ended r x
  Move-Good (drop q) (failed e k h d x) = failed e k h tt x
  Move-Good (drop q) (open_queue n p o) = absurd o.up
  Move-Good (drop q) (closed_queue n j) = absurd j
  Move-Good (leave q) (ended r x) = ended r x
  Move-Good (leave q) (failed e k h d x) = failed e k h tt x
  Move-Good (leave q) (open_queue n p o) = absurd o.up
  Move-Good (leave q) (closed_queue n j) = absurd j

  Run-Good :
      {depth : ℕ} {s : Shared} {c : Caller} {w : Worker} {t : Shared} {c' : Caller} {w' : Worker}
      → Run cfg depth s c w t c' w'
      → Good s c w
      → Good t c' w'
  Run-Good start g = g
  Run-Good (later r m) g = Move-Good m (Run-Good r g)

  returned_expected :
      {s : Shared} {r : Result DecodeStats} {w : Worker} → Good s (returned r) w → r ≡ expected
  returned_expected (ended r x) = x
  returned_expected (failed e k h d x) = absurd k
  returned_expected (open_queue n p o) = absurd p

-- In any order of the moves of the two threads and for any depth of the queue, what `feed` or `finish` of the
-- pipeline gives to the download, the figures of the copy or an error, is what the decoder gives
-- without the pipeline for the same chunks.
pub pipeline-Decodes :
    (cfg : Config) (depth : ℕ) (chunks : List Bytes) {t : Shared} {r : Result DecodeStats}
    {w : Worker}
    → Run cfg depth (init new) (feeding chunks) waiting t (returned r) w
    → r ≡ decode cfg chunks
unfolding decode
pipeline-Decodes cfg depth chunks run = returned_expected cfg (decode cfg chunks) (
    Run-Good cfg (decode cfg chunks) run
      (open_queue refl tt (record { up = tt; shape = tt; rest = refl })))

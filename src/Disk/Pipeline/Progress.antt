-- ===== src/Disk/Pipeline/Progress.antt =====
-- The two threads of helper/helper_app/disk/pipeline.py never block each other, and end.
use vmware_migration_helper.Base.{
  ℕ, suc, ◌+◌, ◌*◌, ◌≤◌, ◌<◌, ◌≡◌, refl, ap, arith, Option, none, some, List, [], ◌∷◌, ◌++◌, length,
  sum_by, sum_by-append, inl, inr, Option-cases,
}
use mathlib.Core.Path.{subst}
use vmware_migration_helper.Base.Bytes.{Bytes}
use vmware_migration_helper.Disk.Vmdk.{Result, ok, err}
use vmware_migration_helper.Disk.Vmdk.Decoder.{Config, Decoder, DecodeStats, new, feed, decode}
use vmware_migration_helper.Disk.Pipeline.{
  Caller, feeding, putting, closing, joining, returned, Worker, waiting, emptying, done, decoding,
  Shared, Move, feed_nothing, look, feed_raises, put, put_raises, finish_looks, finish_raises,
  close, joined, joined_raises, get, get_end, decode_chunk, decode_raises, drop, leave, Run, start,
  later, init,
}
use vmware_migration_helper.Disk.Pipeline.Refines.{
  Good, failed, open_queue, closed_queue, Move-Good, IsOpen, IsClosed, IsLive,
}

-- How many moves each thread and the queue stand for.
abbrev pub caller_ahead : Caller → ℕ
caller_ahead (feeding rest) = 5 * length rest + 6
caller_ahead (putting c rest) = 5 * length rest + 10
caller_ahead closing = 5
caller_ahead joining = 1
caller_ahead (returned r) = 0

abbrev pub worker_ahead : Worker → ℕ
worker_ahead waiting = 2
worker_ahead (decoding c) = 4
worker_ahead emptying = 1
worker_ahead done = 0

abbrev queued : List (Option Bytes) → ℕ
queued = sum_by (λ x. 3)

abbrev ahead : Shared → Caller → Worker → ℕ
ahead s c w = queued s.queue + caller_ahead c + worker_ahead w

queued-put : (q : List (Option Bytes)) (x : Option Bytes) → queued (q ++ x ∷ []) ≡ queued q + 3
queued-put q x = sum_by-append (λ x. 3) q (x ∷ [])

abbrev pub CanMove : Config → ℕ → Shared → Caller → Worker → Type 0
CanMove cfg depth s c w =
    (t : Shared) × (c' : Caller) × (w' : Worker) × Move cfg depth s c w t c' w'

module _ {cfg : Config} {depth : ℕ} where
  -- The number of moves of a run.
  abbrev pub moves :
      {s : Shared} {c : Caller} {w : Worker} {t : Shared} {c' : Caller} {w' : Worker}
      → Run cfg depth s c w t c' w'
      → ℕ
  moves start = 0
  moves (later r m) = suc (moves r)

  pub Move-falls :
      {s t : Shared} {c c' : Caller} {w w' : Worker}
      → Move cfg depth s c w t c' w'
      → ahead t c' w' < ahead s c w
  Move-falls {s} (put {chunk} l) = omega (arith, queued-put s.queue (some chunk))
  Move-falls {s} (close l) = omega (arith, queued-put s.queue none)
  Move-falls (get e) = omega (arith, ap queued e)
  Move-falls (get_end e) = omega (arith, ap queued e)
  Move-falls (drop e) = omega (arith, ap queued e)
  Move-falls _ = omega arith

  Run-falls :
      {s : Shared} {c : Caller} {w : Worker} {t : Shared} {c' : Caller} {w' : Worker}
      (r : Run cfg depth s c w t c' w')
      → moves r + ahead t c' w' ≤ ahead s c w
  Run-falls start = omega arith
  Run-falls (later r m) = omega (arith, Run-falls r, Move-falls m)

module _ (cfg : Config) (expected : Result DecodeStats) where
  -- The worker is gone and the end mark is still to come only with an empty queue.
  abbrev Quiet : Shared → Caller → Worker → Type 0
  Quiet s c w = c ≡ closing → w ≡ done → s.queue ≡ []

  not_done :
      {s : Shared} (w : Worker) → s.error ≡ none → Good cfg expected s (feeding []) w → ¬ (w ≡ done)
  not_done done h (failed e k h' d x) f = cc (h, h')
  not_done done h (open_queue n p o) f = o.up
  not_done _ h g f = cc f

  no_end :
      {s : Shared} {q : List (Option Bytes)} (c : Caller)
      → s.queue ≡ none ∷ q
      → Good cfg expected s c waiting
      → ¬ (c ≡ closing)
  no_end closing e (failed x k h d y) f = d
  no_end closing e (open_queue n p o) f = subst IsOpen e o.shape
  no_end _ e g f = cc f

module _ (cfg : Config) (expected : Result DecodeStats) (depth : ℕ) where
  Move-Quiet :
      {s t : Shared} {c c' : Caller} {w w' : Worker}
      → Move cfg depth s c w t c' w'
      → Good cfg expected s c w
      → Quiet cfg expected s c w
      → Quiet cfg expected t c' w'
  Move-Quiet (finish_looks {w} h) g q = λ e f. absurd (not_done cfg expected w h g f)
  Move-Quiet (get_end {c} x) g q = λ e f. absurd (no_end cfg expected c x g e)
  Move-Quiet (leave x) g q = λ e f. x
  Move-Quiet _ g q = λ e f. absurd (cc (e, f))

  look_or_raise :
      (s : Shared) (rest : List Bytes) (w : Worker) → CanMove cfg depth s (feeding rest) w
  look_or_raise s [] w = elim (Option-cases s.error) [
    | inl e ↦ (_, _, _, finish_looks e)
    | inr (x, e) ↦ (_, _, _, finish_raises e)
  ]
  look_or_raise s ([] ∷ rest) w = (_, _, _, feed_nothing)
  look_or_raise s ((b ∷ chunk) ∷ rest) w = elim (Option-cases s.error) [
    | inl e ↦ (_, _, _, look e)
    | inr (x, e) ↦ (_, _, _, feed_raises e)
  ]

  -- With the worker gone, the caller can move.
  done_moves :
      (s : Shared) (c : Caller)
      → 0 < depth
      → Good cfg expected s c done
      → Quiet cfg expected s c done
      → IsLive c
      → CanMove cfg depth s c done
  done_moves s (feeding rest) l g q k = look_or_raise s rest done
  done_moves s (putting c rest) l (failed e k' h d x) q k = (_, _, _, put_raises h)
  done_moves s (putting c rest) l (open_queue n p o) q k = absurd o.up
  done_moves s closing l g q k =
      let e = q refl refl in (_, _, _, close (omega (arith, ap length e)))
  done_moves s joining l g q k = elim (Option-cases s.error) [
    | inl e ↦ (_, _, _, joined e)
    | inr (x, e) ↦ (_, _, _, joined_raises e)
  ]
  done_moves s (returned r) l g q k = absurd k

  -- With an empty queue and the worker at it, too.
  empty_moves :
      (s : Shared) (c : Caller)
      → 0 < depth
      → s.queue ≡ []
      → Good cfg expected s c waiting
      → IsLive c
      → CanMove cfg depth s c waiting
  empty_moves s (feeding rest) l e g k = look_or_raise s rest waiting
  empty_moves s (putting c rest) l e g k = (_, _, _, put (omega (arith, ap length e)))
  empty_moves s closing l e g k = (_, _, _, close (omega (arith, ap length e)))
  empty_moves s joining l e (failed x k' h d y) k = absurd d
  empty_moves s joining l e (open_queue n p o) k = absurd p
  empty_moves s joining l e (closed_queue n j) k = absurd (subst IsClosed e j.shape)
  empty_moves s (returned r) l e g k = absurd k

  get_moves :
      (s : Shared) (c : Caller) (q : List (Option Bytes))
      → s.queue ≡ q
      → (s.queue ≡ [] → CanMove cfg depth s c waiting)
      → CanMove cfg depth s c waiting
  get_moves s c [] e h = h e
  get_moves s c (none ∷ q) e h = (_, _, _, get_end e)
  get_moves s c (some chunk ∷ q) e h = (_, _, _, get e)

  drop_moves :
      (s : Shared) (c : Caller) (q : List (Option Bytes))
      → s.queue ≡ q
      → CanMove cfg depth s c emptying
  drop_moves s c [] e = (_, _, _, leave e)
  drop_moves s c (x ∷ q) e = (_, _, _, drop e)

  decode_moves :
      (s : Shared) (c : Caller) (chunk : Bytes) (r : Result Decoder)
      → feed cfg chunk s.decoder ≡ r
      → CanMove cfg depth s c (decoding chunk)
  decode_moves s c chunk (ok d) e = (_, _, _, decode_chunk e)
  decode_moves s c chunk (err x) e = (_, _, _, decode_raises e)

  can_move :
      (s : Shared) (c : Caller) (w : Worker)
      → 0 < depth
      → Good cfg expected s c w
      → Quiet cfg expected s c w
      → IsLive c
      → CanMove cfg depth s c w
  can_move s c waiting l g q k = get_moves s c s.queue refl (λ e. empty_moves s c l e g k)
  can_move s c (decoding chunk) l g q k = decode_moves s c chunk _ refl
  can_move s c emptying l g q k = drop_moves s c s.queue refl
  can_move s c done l g q k = done_moves s c l g q k

  Run-Quiet :
      {s : Shared} {c : Caller} {w : Worker} {t : Shared} {c' : Caller} {w' : Worker}
      → Run cfg depth s c w t c' w'
      → Good cfg expected s c w
      → Quiet cfg expected s c w
      → Good cfg expected t c' w' × Quiet cfg expected t c' w'
  Run-Quiet start g q = (g, q)
  Run-Quiet (later r m) g q =
      let (h, p) = Run-Quiet r g q in (Move-Good cfg expected m h, Move-Quiet m h p)

-- The pipeline comes to its end in whatever order the two threads move: a run has at most 5 moves for each chunk and
-- 8 more, and with room for one chunk in the queue one of the threads can move as long as the download
-- has no result, so that they never wait for each other for ever.
pub pipeline-Ends :
    (cfg : Config) (depth : ℕ) (chunks : List Bytes) {t : Shared} {c : Caller} {w : Worker}
    → 0 < depth
    → (r : Run cfg depth (init new) (feeding chunks) waiting t c w) → IsLive c
    → (moves r ≤ 5 * length chunks + 8) × CanMove cfg depth t c w
unfolding decode
pipeline-Ends cfg depth chunks {t} {c} {w} l r k =
    let expected = decode cfg chunks in
    let (g, q) =
      Run-Quiet cfg expected depth r
        (open_queue refl tt (record { up = tt; shape = tt; rest = refl })) (λ e. absurd (cc e)) in
    (omega (arith, Run-falls r), can_move cfg expected depth t c w l g q k)

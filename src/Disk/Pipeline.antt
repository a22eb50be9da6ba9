-- ===== src/Disk/Pipeline.antt =====
-- `PipelinedDecoder` of helper/helper_app/disk/pipeline.py: the thread that downloads and the thread that decodes, as
-- moves of one of them at a time. The caller feeds its chunks in order and then finishes. A put that
-- waits on a full queue is no move, and wakes up every half second to look for a failure. `abort` is left out.
pub mod Refines
pub mod Progress
use vmware_migration_helper.Base.{ℕ, suc, ◌<◌, ◌≡◌, Option, none, some, List, [], ◌∷◌, ◌++◌, length}
use vmware_migration_helper.Base.Bytes.{Bytes}
use vmware_migration_helper.Disk.Vmdk.{Result, ok, err, Error}
use vmware_migration_helper.Disk.Vmdk.Decoder.{Config, Decoder, DecodeStats, feed, finish}

-- Where the downloading thread is: about to feed the rest of its chunks, in the put of a chunk, in the put of
-- the end mark, in the join, and with what `feed` or `finish` raised or `finish` returned.
pub data Caller : Type 0 where
  feeding : List Bytes → Caller
  putting : Bytes → List Bytes → Caller
  closing joining : Caller
  returned : Result DecodeStats → Caller

-- Where the decoding thread is: before the get, in the decoder, emptying the queue after an error, at its end.
pub data Worker : Type 0 where
  waiting emptying done : Worker
  decoding : Bytes → Worker

pub record Shared : Type 0 where
  pub queue : List (Option Bytes)  -- the oldest first; the end mark is none
  pub error : Option Error  -- `_error` with `_failed`
  pub decoder : Decoder

pub data Move (cfg : Config) (depth : ℕ) (s : Shared)
    : Caller → Worker → Shared → Caller → Worker → Type 0 where
  feed_nothing :
      {rest : List Bytes} {w : Worker} → Move cfg depth s (feeding ([] ∷ rest)) w s (feeding rest) w
  look :
      {b : ℕ} {chunk : Bytes} {rest : List Bytes} {w : Worker}
      → s.error ≡ none
      → Move cfg depth s (feeding ((b ∷ chunk) ∷ rest)) w s (putting (b ∷ chunk) rest) w
  feed_raises :
      {b : ℕ} {chunk : Bytes} {rest : List Bytes} {w : Worker} {e : Error}
      → s.error ≡ some e
      → Move cfg depth s (feeding ((b ∷ chunk) ∷ rest)) w s (returned (err e)) w
  put :
      {chunk : Bytes} {rest : List Bytes} {w : Worker}
      → length s.queue < depth
      → Move cfg depth s
          (putting chunk rest)
          w
          (record s { queue = s.queue ++ some chunk ∷ [] })
          (feeding rest)
          w
  put_raises :
      {chunk : Bytes} {rest : List Bytes} {w : Worker} {e : Error}
      → s.error ≡ some e
      → Move cfg depth s (putting chunk rest) w s (returned (err e)) w
  finish_looks : {w : Worker} → s.error ≡ none → Move cfg depth s (feeding []) w s closing w
  finish_raises :
      {w : Worker} {e : Error}
      → s.error ≡ some e
      → Move cfg depth s (feeding []) w s (returned (err e)) w
  close :
      {w : Worker}
      → length s.queue < depth
      → Move cfg depth s closing w (record s { queue = s.queue ++ none ∷ [] }) joining w
  joined : s.error ≡ none → Move cfg depth s joining done s (returned (finish s.decoder)) done
  joined_raises :
      {e : Error} → s.error ≡ some e → Move cfg depth s joining done s (returned (err e)) done
  get :
      {c : Caller} {chunk : Bytes} {rest : List (Option Bytes)}
      → s.queue ≡ some chunk ∷ rest
      → Move cfg depth s c waiting (record s { queue = rest }) c (decoding chunk)
  get_end :
      {c : Caller} {rest : List (Option Bytes)}
      → s.queue ≡ none ∷ rest
      → Move cfg depth s c waiting (record s { queue = rest }) c done
  decode_chunk :
      {c : Caller} {chunk : Bytes} {d : Decoder}
      → feed cfg chunk s.decoder ≡ ok d
      → Move cfg depth s c (decoding chunk) (record s { decoder = d }) c waiting
  decode_raises :
      {c : Caller} {chunk : Bytes} {e : Error}
      → feed cfg chunk s.decoder ≡ err e
      → Move cfg depth s c (decoding chunk) (record s { error = some e }) c emptying
  drop :
      {c : Caller} {x : Option Bytes} {rest : List (Option Bytes)}
      → s.queue ≡ x ∷ rest
      → Move cfg depth s c emptying (record s { queue = rest }) c emptying
  leave : {c : Caller} → s.queue ≡ [] → Move cfg depth s c emptying s c done

pub data Run (cfg : Config) (depth : ℕ) (s : Shared) (c : Caller) (w : Worker)
    : Shared → Caller → Worker → Type 0 where
  start : Run cfg depth s c w s c w
  later :
      {t u : Shared} {c' c'' : Caller} {w' w'' : Worker}
      → Run cfg depth s c w t c' w'
      → Move cfg depth t c' w' u c'' w''
      → Run cfg depth s c w u c'' w''

abbrev pub init : Decoder → Shared
init d = record { queue = []; error = none; decoder = d }

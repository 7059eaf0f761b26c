-- ===== src/Stream.antt =====
-- internal/downloader/downloader.go: `StreamDownload`, and the part of `StreamDownloadRange` behind its
-- first chunk. Workers take parts from a channel, fetch them and put them into a map under a mutex; the
-- caller's own goroutine writes them in order. A step is what one goroutine does between two points at
-- which others can run; a fetch is one step, at its end. The workers are alike: the model counts the
-- idle ones and keeps the parts that the busy ones fetch.
pub mod Order
pub mod Healthy
pub mod Next
pub mod Progress
pub mod Files
pub mod Ranges
mod Tests
use discord_free_cloud.Base.{
  ℕ, zero, suc, ◌+◌, List, [], ◌∷◌, ◌++◌, Bool, true, false, not, Option, some, none, Result, ok,
  err, ltb, ◌==◌, if◌then◌else◌, length, Text, ◌≡◌,
}
use discord_free_cloud.Aead.{Aead, key_length}
use discord_free_cloud.Db.{FileRecord, ChunkRecord, Store, DbError}
use discord_free_cloud.Db.Files.{get_file}
use discord_free_cloud.Db.Chunks.{get_chunks_for_file}
use discord_free_cloud.Fetch.{DiscordApi, Engine, FetchError, fetch_chunk}
use discord_free_cloud.Download.{row_of, scan_rows, clipped, needed_chunks}

pub data StreamError : Type 0 where
  locked no_file no_parts cancelled not_written : StreamError
  not_fetched : FetchError → StreamError

-- What the two functions do differently: the key in the map under which the goroutine that writes
-- looks for the part at a position, and what it writes of the part.
pub record Mode : Type 0 where
  pub slot : ℕ → ChunkRecord → ℕ
  pub render : ChunkRecord → List ℕ → List ℕ

-- `StreamDownload` writes every part whole.
abbrev pub whole_mode : Mode
whole_mode = record { slot = λ i c. i; render = λ c bytes. bytes }

-- `StreamDownloadRange` writes what lies between `start` and `end`.
abbrev pub range_mode : (start end : ℕ) → Mode
range_mode start end = record {
  slot = λ i c. c.chunk_index;
  render = λ c bytes. clipped start end c bytes;
}

-- `queue` is what is left in the channel, `results` the map, `failure` the variable `workerErr`, `rest`
-- the parts that are still to be written, `next` how many are written, `ended` what has been returned.
pub record Stream (W : Type 0) : Type 0 where
  pub queue : List ChunkRecord
  pub idle : ℕ
  pub busy : List ChunkRecord
  pub results : ℕ → Option (List ℕ)
  pub failure : Option StreamError
  pub stopped : Bool
  pub rest : List ChunkRecord
  pub next : ℕ
  pub out : List ℕ
  pub engine : Engine W
  pub ended : Option (Result StreamError (Unit {0}))

abbrev pub put : ℕ → List ℕ → (ℕ → Option (List ℕ)) → ℕ → Option (List ℕ)
put i bytes results j = if i == j then some bytes else results j

abbrev pub delete : ℕ → (ℕ → Option (List ℕ)) → ℕ → Option (List ℕ)
delete i results j = if i == j then none else results j

-- what the watcher of the context leaves in `workerErr`
abbrev pub or_cancelled : Option StreamError → Option StreamError
or_cancelled none = some cancelled
or_cancelled (some e) = some e

-- What happens to a stream from outside: its context is cancelled, or a write of a part fails, which
-- may have sent some of its bytes.
pub data Trouble {W : Type 0} (mode : Mode) (s : Stream W) : Stream W → Type 0 where
  cancel : Trouble mode s (record s { stopped = true })
  refuse_write :
      (c : ChunkRecord) (cs : List ChunkRecord) (bytes sent unsent : List ℕ)
      → s.ended ≡ none
      → s.rest ≡ c ∷ cs
      → s.stopped ≡ false
      → s.failure ≡ none
      → s.results (mode.slot s.next c) ≡ some bytes
      → mode.render c bytes ≡ sent ++ unsent
      → Trouble mode s (record s { out = s.out ++ sent; ended = some (err not_written) })

module _ {W : Type 0} (api : DiscordApi W) (aead : Aead) (mode : Mode) (file_id : Text)
    (key : List ℕ) where
  pub data Step (s : Stream W) : Stream W → Type 0 where
    -- a worker receives a part, or finds the channel closed, or the context cancelled
    take :
        (c : ChunkRecord) (cs : List ChunkRecord) (n : ℕ)
        → s.queue ≡ c ∷ cs
        → s.idle ≡ suc n
        → Step s (record s { queue = cs; idle = n; busy = c ∷ s.busy })
    leave : (n : ℕ) → s.queue ≡ [] → s.idle ≡ suc n → Step s (record s { idle = n })
    quit : (n : ℕ) → s.stopped ≡ true → s.idle ≡ suc n → Step s (record s { idle = n })
    -- a worker has fetched its part, or failed to
    deliver :
        (before after : List ChunkRecord) (c : ChunkRecord) (bytes : List ℕ)
        → s.busy ≡ before ++ (c ∷ after)
        → (fetch_chunk api aead file_id c key s.engine).0 ≡ ok bytes
        → Step s (record s {
          busy = before ++ after;
          idle = suc s.idle;
          results = put c.chunk_index bytes s.results;
          engine = (fetch_chunk api aead file_id c key s.engine).1;
        })
    fail :
        (before after : List ChunkRecord) (c : ChunkRecord) (e : FetchError)
        → s.busy ≡ before ++ (c ∷ after)
        → (fetch_chunk api aead file_id c key s.engine).0 ≡ err e
        → Step s (record s {
          busy = before ++ after;
          failure = some (not_fetched e);
          engine = (fetch_chunk api aead file_id c key s.engine).1;
        })
    -- the goroutine that waits for the context
    notice : s.stopped ≡ true → Step s (record s { failure = or_cancelled s.failure })
    -- the loop that writes, with its checks in their order
    stop_cancelled :
        (c : ChunkRecord) (cs : List ChunkRecord)
        → s.ended ≡ none
        → s.rest ≡ c ∷ cs
        → s.stopped ≡ true
        → Step s (record s { ended = some (err cancelled) })
    stop_failed :
        (c : ChunkRecord) (cs : List ChunkRecord) (e : StreamError)
        → s.ended ≡ none
        → s.rest ≡ c ∷ cs
        → s.stopped ≡ false
        → s.failure ≡ some e
        → Step s (record s { ended = some (err e) })
    write :
        (c : ChunkRecord) (cs : List ChunkRecord) (bytes : List ℕ)
        → s.ended ≡ none
        → s.rest ≡ c ∷ cs
        → s.stopped ≡ false
        → s.failure ≡ none
        → s.results (mode.slot s.next c) ≡ some bytes
        → Step s (record s {
          out = s.out ++ mode.render c bytes;
          results = delete (mode.slot s.next c) s.results;
          rest = cs;
          next = suc s.next;
        })
    -- `wg.Wait` has returned
    complete :
        s.ended ≡ none
        → s.rest ≡ []
        → s.idle ≡ 0
        → s.busy ≡ []
        → Step s (record s { ended = some (ok tt) })

  -- what a stream goes through, from a start on
  pub data Reach (start : Stream W) : Stream W → Type 0 where
    begin : Reach start start
    later : {s t : Stream W} → Reach start s → Step s t → Reach start t
    upset : {s t : Stream W} → Reach start s → Trouble mode s t → Reach start t

-- The number of workers for `n` parts.
unfoldable pub worker_limit : (workers n : ℕ) → ℕ
worker_limit workers n =
    let limit = if ltb n workers then n else workers in if ltb limit 1 then 1 else limit

-- the loop over the map: the rows of the indices from `i` on, `n` of them, that are there
pub in_order : List ChunkRecord → ℕ → ℕ → List ChunkRecord
in_order m i zero = []
in_order m i (suc n) =
    let rest = in_order m (suc i) n in elim (row_of i m) [ none ↦ rest | some c ↦ c ∷ rest ]

pub parts_in_order : List ChunkRecord → List ChunkRecord
unfolding in_order
parts_in_order rows = let m = (scan_rows [] 0 rows).0 in in_order m 0 (length m)

module _ {W : Type 0} where
  pub started : ℕ → List ChunkRecord → Engine W → Stream W
  unfolding worker_limit
  started workers parts e = record {
    queue = parts;
    idle = worker_limit workers (length parts);
    busy = [];
    results = λ i. none;
    failure = none;
    stopped = false;
    rest = parts;
    next = 0;
    out = [];
    engine = e;
    ended = none;
  }

-- How `StreamDownload` goes on behind its queries: it has returned, hands a folder to `StreamZip`, or
-- fetches the one part, or starts the workers.
pub data Opening (W : Type 0) : Type 0 where
  refused : StreamError → Opening W
  folder : FileRecord → Opening W
  single : ChunkRecord → Engine W → Opening W
  streaming : Stream W → Opening W

module _ {W : Type 0} where
  with_parts : ℕ → Engine W → List ChunkRecord → Opening W
  unfolding started
  with_parts workers e (c ∷ []) = single c e
  with_parts workers e parts = streaming (started workers parts e)

  with_rows : ℕ → Engine W → Result DbError (List ChunkRecord) × Store → Opening W
  unfolding with_parts parts_in_order
  with_rows workers e (err f, s) = refused no_parts
  with_rows workers e (ok [], s) = refused no_parts
  with_rows workers e (ok (c ∷ cs), s) =
      with_parts workers (record e { store = s }) (parts_in_order (c ∷ cs))

  with_file : ℕ → Text → Engine W → Result DbError FileRecord × Store → Opening W
  unfolding with_rows
  with_file workers file_id e (err f, s) = refused no_file
  with_file workers file_id e (ok f, s) =
      if f.is_dir then folder f else with_rows workers e (get_chunks_for_file file_id s)

  pub open_stream : ℕ → Text → List ℕ → Engine W → Opening W
  unfolding with_file
  open_stream workers file_id key e =
      if not (length key == key_length)
      then refused locked
      else with_file workers file_id e (get_file file_id e.store)

  -- the end of `StreamDownload` for one part: what is written, or why not
  pub stream_single :
      DiscordApi W
      → Aead
      → Text
      → List ℕ
      → ChunkRecord
      → Engine W
      → Result StreamError (List ℕ) × Engine W
  stream_single api aead file_id key c e =
      let fetched = fetch_chunk api aead file_id c key e in
      elim fetched.0 [ err f ↦ (err (not_fetched f), fetched.1) | ok bytes ↦ (ok bytes, fetched.1) ]

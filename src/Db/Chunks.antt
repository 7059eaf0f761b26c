-- ===== src/Db/Chunks.antt =====
-- internal/db/db.go: the statements on the table `chunks`.
use discord_free_cloud.Base.{
  codes, max, ◌*◌, ◌-◌, ◌++◌, ℕ, ◌+◌, ◌≡◌, refl, List, [], ◌∷◌, Bool, true, false, ◌&&◌, not,
  Option, some, none, Result, ok, err, length, leb, ◌==◌, if◌then◌else◌, Text, bytes_eq,
}
use discord_free_cloud.Db.{
  ChunkStatus, completed, failed, ChunkRecord, Store, DbError, bad_statement, no_rows, query, exec,
}
use discord_free_cloud.Db.Faults.{query-chunks}
unfoldable pub use discord_free_cloud.Db.Rows.{select, update_where, insert_by, order_by}

unfoldable pub is_completed : ChunkStatus → Bool
is_completed completed = true
is_completed _ = false

-- ORDER BY chunk_index ASC
unfoldable pub index_asc : ChunkRecord → ChunkRecord → Bool
index_asc c d = leb c.chunk_index d.chunk_index

-- ORDER BY created_at DESC
unfoldable pub created_desc : ChunkRecord → ChunkRecord → Bool
created_desc c d = leb d.created_at c.created_at

unfoldable pub get_chunks_for_file_and_guild :
    Text → Text → Store → Result DbError (List ChunkRecord) × Store
unfolding is_completed select order_by index_asc
get_chunks_for_file_and_guild file_id guild_id = query λ s. ok (
    order_by index_asc (
      select
        (λ c.
          bytes_eq c.file_id file_id
          && is_completed c.status
          && (if bytes_eq guild_id [] then true else bytes_eq c.guild_id guild_id))
        s.chunks))

unfoldable pub get_chunks_for_file : Text → Store → Result DbError (List ChunkRecord) × Store
unfolding get_chunks_for_file_and_guild
get_chunks_for_file file_id = get_chunks_for_file_and_guild file_id []

-- the condition of `FindChunkByHash` and `FindChunksByHash`
unfoldable pub is_copy_of : Text → ChunkRecord → Bool
unfolding is_completed
is_copy_of sha c = bytes_eq c.sha256 sha && is_completed c.status && not (bytes_eq c.message_id [])

unfoldable pub find_chunks_by_hash : Text → Store → Result DbError (List ChunkRecord) × Store
unfolding select order_by created_desc is_copy_of query
find_chunks_by_hash [] s = (ok [], s)
find_chunks_by_hash (b ∷ bs) s =
    query (λ t. ok (order_by created_desc (select (is_copy_of (b ∷ bs)) t.chunks))) s

-- What both `UpdateChunk...` statements write beside the status.
pub record Location : Type 0 where
  pub guild : Text
  pub channel : Text
  pub message : Text
  pub attachment : Text
  pub url : Text

-- The text of a statement while its parameters `$1`, `$2`, ... are read: whether a number is being read,
-- the number so far, and the highest before it.
record Reader : Type 0 where
  reading : Bool
  number : ℕ
  highest : ℕ

read_char : Reader → ℕ → Reader
read_char r c =
    if c == 36
    then record { reading = true; number = 0; highest = max r.number r.highest }
    else if r.reading && (leb 48 c && leb c 57)
    then record r { number = r.number * 10 + (c - 48) }
    else record { reading = false; number = 0; highest = max r.number r.highest }

read_text : Reader → Text → Reader
unfolding read_char
read_text r [] = r
read_text r (c ∷ cs) = read_text (read_char r c) cs

-- how many parameters PostgreSQL finds in a statement: the highest of their numbers
unfoldable pub parameters : Text → ℕ
unfolding read_text read_char
parameters text =
    let r = read_text (record { reading = false; number = 0; highest = 0 }) text in
    max r.number r.highest

-- what is bound to a parameter
pub data Argument : Type 0 where
  a_status : ChunkStatus → Argument
  a_text : Text → Argument
  a_time : Option ℕ → Argument

-- `UpdateChunkWithGuild`: the text of the statement
unfoldable pub update_query : (guild_id : Text) → Text
update_query guild_id =
    codes "UPDATE chunks SET status = $1, channel_id = $2, message_id = $3, "
    ++ (codes "attachment_id = $4, attachment_url = $5, completed_at = $6"
        ++ ((if bytes_eq guild_id [] then [] else codes ", guild_id = $7")
            ++ codes " WHERE id = $8"))

-- its arguments
unfoldable pub update_arguments : Text → ChunkStatus → Location → (now : ℕ) → List Argument
unfolding is_completed
update_arguments chunk_id status at now =
    (a_status status
      ∷ a_text at.channel
      ∷ a_text at.message
      ∷ a_text at.attachment
      ∷ a_text at.url
      ∷ a_time (if is_completed status then some now else none)
      ∷ [])
    ++ ((if bytes_eq at.guild [] then [] else a_text at.guild ∷ []) ++ (a_text chunk_id ∷ []))

-- The driver refuses a statement that does not get as many arguments as it has parameters. A guild is
-- written where one is given.
unfoldable pub update_chunk_with_guild :
    Text → ChunkStatus → Location → Store → Result DbError (Unit {0}) × Store
unfolding parameters update_query update_arguments update_where is_completed
update_chunk_with_guild chunk_id status at = exec λ s.
    if length (update_arguments chunk_id status at s.now) == parameters (update_query at.guild)
    then ok (record s {
      chunks =
          update_where (λ c. bytes_eq c.id chunk_id)
            (λ c. record c {
              status = status;
              channel_id = at.channel;
              message_id = at.message;
              attachment_id = at.attachment;
              attachment_url = at.url;
              completed_at = if is_completed status then some s.now else none;
              guild_id = at.guild;
            })
            s.chunks;
    })
    else err bad_statement

unfoldable pub mark_chunk_failed : Text → Store → Result DbError (Unit {0}) × Store
unfolding update_where
mark_chunk_failed chunk_id = exec λ s. ok (record s {
  chunks =
      update_where (λ c. bytes_eq c.id chunk_id)
        (λ c. record c { status = failed; retry_count = c.retry_count + 1 }) s.chunks;
})

unfoldable pub update_chunk_complete :
    Text → Location → Text → Store → Result DbError (Unit {0}) × Store
unfolding update_where
update_chunk_complete chunk_id at sha = exec λ s. ok (record s {
  chunks =
      update_where (λ c. bytes_eq c.id chunk_id)
        (λ c. record c {
          status = completed;
          channel_id = at.channel;
          message_id = at.message;
          attachment_id = at.attachment;
          attachment_url = at.url;
          completed_at = some s.now;
          sha256 = sha;
          guild_id = at.guild;
        })
        s.chunks;
})

unfoldable pub count_completed_chunks_for_job : Text → Store → Result DbError ℕ × Store
unfolding select is_completed
count_completed_chunks_for_job job_id =
    query
      λ s. ok (length (select (λ c. bytes_eq c.job_id job_id && is_completed c.status) s.chunks))

-- `QueryRow` of a query with LIMIT 1
first_or_none : List ChunkRecord → Result DbError (Option ChunkRecord)
first_or_none [] = err no_rows
first_or_none (c ∷ cs) = ok (some c)

pub find_chunk_by_hash : Text → Store → Result DbError (Option ChunkRecord) × Store
unfolding select order_by created_desc is_copy_of query first_or_none
find_chunk_by_hash [] s = (ok none, s)
find_chunk_by_hash (b ∷ bs) s =
    query (λ t. first_or_none (order_by created_desc (select (is_copy_of (b ∷ bs)) t.chunks))) s

-- The look for a hash changes no row.
pub find_chunk_by_hash-chunks :
    (hash : Text) (s : Store) → (find_chunk_by_hash hash s).1.chunks ≡ s.chunks
unfolding find_chunk_by_hash
find_chunk_by_hash-chunks [] s = refl
find_chunk_by_hash-chunks (b ∷ bs) s =
    query-chunks
      (λ t. first_or_none (order_by created_desc (select (is_copy_of (b ∷ bs)) t.chunks))) s

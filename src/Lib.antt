-- ===== src/Lib.antt =====
-- Discord Free Cloud: a drive that keeps its files as encrypted attachments on Discord servers. An
-- upload cuts a file into parts, seals each part with AES-256-GCM under the label "<file id>:<index>",
-- wraps it as a PNG image and posts it; a catalog in PostgreSQL records where each part went. A read
-- asks the catalog for the parts, downloads, unwraps and unlocks them, and puts them together.
--
-- Parts of the program and their models:
-- - Base (with its children): shared names, byte lists and their slices, Go maps as association lists,
--   results, and the labels that fmt.Sprintf("%s:%d", ...) gives. Text is a list of character codes.
-- - Png models internal/crypto/polyglot.go: writePNGChunk is write_png_chunk, WrapPNG is wrap_png,
--   UnwrapPNG is unwrap_png with its loop scan on fuel: a round takes twelve bytes at least, so the
--   length of the input is enough. Png/Crc has the checksum, Png/Frames the abstract stream of frames.
-- - Aead models internal/crypto/crypto.go: EncryptChunk and DecryptChunk over an interface Aead for the
--   cipher, with the laws of authenticated encryption that the code relies on. Aead/Toy is an instance.
-- - Chunker models internal/chunker/fastcdc.go: NewFastCDC, NextCut (cut_loop) and Split (split_loop,
--   drain), with the arithmetic of 64 bits written out and the hash of a chunk as a parameter. The loop
--   of Split is on fuel, and one round per read is enough.
-- - Cache models getCachedChunk and putCachedChunk of internal/downloader/downloader.go.
-- - Db models internal/db/db.go, internal/db/share.go and internal/db/qol.go: a Store is the tables
--   files, jobs, chunks, settings and shares, the clock, and a list of faults that the statements use up;
--   a statement takes effect whole or not at all. Db/Chunks, Db/Jobs, Db/Files, Db/Settings,
--   Db/Shares, Db/Marks and Db/Counts have the statements; the text of a query is modelled by what it selects and sets
--   (Db/Rows).
-- - Fetch models fetchSingleChunk and fetchChunk of internal/downloader/downloader.go over DiscordApi,
--   the two calls of internal/discord/client.go that a download makes, each of which may fail.
-- - Upload models the cut of a file and the rows that UploadFile of internal/uploader/uploader.go plans.
-- - Sending models runUpload of internal/uploader/uploader.go: a step relation in which a step of a
--   worker (advance) goes up to its next call of the catalog or of Discord, and close_upload is the end
--   of the job. Sending/Records has what the statements do to the rows, Sending/Truth and Sending/Runs
--   what holds at every point.
-- - Download models GetFileBytes and the choice and clipping of parts in StreamDownloadRange of
--   internal/downloader/downloader.go.
-- - Stream models StreamDownload and StreamDownloadRange of the same file with their goroutines: Step is
--   a step of a worker, of the goroutine that writes or of the one that watches the context, Trouble what
--   comes from outside, Mode what the two functions do differently. open_stream is StreamDownload up to
--   its workers, open_range (Stream/Ranges) the same of StreamDownloadRange. A fetch is one step, at its
--   end. Stream/Order, Stream/Healthy, Stream/Next and Stream/Progress have the proofs; there is
--   no fuel: work_left measures what is left to do.
-- - Verify models internal/downloader/verify.go: VerifyFile is verify_file, in which the order of the
--   fetches is a parameter.
-- - Auth models internal/server/auth.go: requireAuth is require_auth, with the scopes of tokens
--   (classify), the sessions (check_session, issue_session) and the public modes. Auth/Sessions has the
--   sessions as a state machine, Auth/Tokens the seeding and creation of tokens. A request is what the
--   code reads of it.
-- - Discord models internal/discord/client.go and internal/discord/pool.go over Web, a parameter with the
--   requests, the clock and the random numbers. Discord/Retry has the rate limits and the attempts of a
--   call, Discord/Calls the calls for messages and channels, Discord/Provision, Discord/Categories and
--   Discord/Setup the channels and webhooks; Discord/Growth and Discord/SyncPool are SyncPool, its loop on
--   fuel, of which one round for each channel that is wanted is enough.
-- - Pool models poolDesired and settingInt of internal/uploader/uploader.go and overflowIndex of
--   internal/discord/pool.go.
-- - Files models internal/server/qol.go: decorate with the health of files (BulkChunkHealth of
--   internal/db/db.go is in Db/Health), the handlers that show a file and its parts, those that rename and
--   move (Files/Moves) and those that mark many (Files/Batch).
-- - Shares models internal/server/share.go: handleShareCreate, handleSharePublic, handleShareRevoke and
--   the lists are functions from the request and the catalog to the answer and the catalog.
--
-- A read goes through Download, Stream or Verify to Fetch, which uses Cache, Db, Png and Aead; what
-- Upload plans is what Sending records and Download puts together. Auth stands before the handlers of
-- the server, of which Shares has those that carry their own credential.
--
-- Numbers are natural numbers. The sizes and offsets of the program are 64-bit and stay far below 2^63;
-- the container's length field has 32 bits, which is a hypothesis where it matters. The number of parts
-- is an exact ceiling, which the floating-point quotient of the source agrees with below 2^52 bytes.
--
-- A query gives all its rows or an error: that GetChunksForFile does not look at rows.Err, so that a read
-- that breaks off gives it a part of the rows, is left out. A statement is refused that does not get as
-- many arguments as its text has parameters.
--
-- Not modelled: most handlers of the web server, the look-ups of bots and servers for display, the lists
-- and searches that depend on the collation of the database, the sync of the catalog, the download of a
-- file to disk and of a folder as a ZIP, thumbnails, progress reports and logs.
-- They are I/O around the parts above, or are left for later extensions. The cipher, the key derivation
-- and SHA-256 are libraries.
pub mod Aead
pub mod Auth
pub mod Base
pub mod Cache
pub mod Chunker
pub mod Db
pub mod Discord
pub mod Download
pub mod Fetch
pub mod Files
pub mod Png
pub mod Pool
pub mod Sending
pub mod Shares
pub mod Stream
pub mod Upload
pub mod Verify

-- ===== src/Verify/Tests.antt =====
-- internal/downloader/verify.go: a file of one part, in two copies, without recorded hashes.
use discord_free_cloud.Base.{◌≡◌, refl, ℕ, List, [], ◌∷◌, true, false, ok, Text, codes, bytes_eq}
use discord_free_cloud.Aead.Toy.{toy}
use discord_free_cloud.Cache.{new_cache}
use discord_free_cloud.Db.{Store, query}
use discord_free_cloud.Db.Samples.{file}
use discord_free_cloud.Fetch.{Engine, fetch_chunk}
use discord_free_cloud.Fetch.Sound.{fetch_chunk-IsSound, new_cache-IsSound}
use discord_free_cloud.Fetch.Samples.{key, server, own, own_fetch}
use discord_free_cloud.Verify.{VerificationResult, verify_file, completed_chunks_for_file}
use discord_free_cloud.Verify.Sound.{Evidence, verify_file-Evidence}
use discord_free_cloud.Db.Files.{get_file}
use discord_free_cloud.Db.Chunks.{get_chunks_for_file}
use discord_free_cloud.Download.{scan_rows}

abbrev no_hash : List ℕ → Text
no_hash bytes = []

abbrev shelf : Store
shelf = record {
  files = file ∷ [];
  jobs = [];
  chunks = own ∷ own ∷ [];
  settings = [];
  shares = [];
  faults = [];
  now = 0;
}

abbrev fresh : Engine (Unit {0})
fresh = record { net = tt; store = shelf; cache = new_cache }

abbrev report : VerificationResult
report = record {
  all_ok = true;
  file_id = codes "f";
  name = codes "n";
  expected_size = 2;
  actual_size = 2;
  expected_hash = [];
  actual_hash = [];
  verdicts = record { index = 0; expected = []; actual = []; size = 2; is_ok = true } ∷ [];
}

fetched_own : (fetch_chunk server toy (codes "f") own key fresh).0 ≡ ok (5 ∷ 6 ∷ [])
fetched_own =
    (fetch_chunk-IsSound server toy (codes "f") own key (λ i. 5 ∷ 6 ∷ []) fresh
      (new_cache-IsSound (codes "f") (λ i. 5 ∷ 6 ∷ [])) own_fetch).0

reported : (verify_file no_hash server toy (codes "f") key false (0 ∷ []) fresh).0 ≡ ok report
unfolding verify_file get_file query bytes_eq completed_chunks_for_file get_chunks_for_file
    scan_rows
reported = rw fetched_own refl

verify_file-Evidence_example : Evidence no_hash server toy (codes "f") key (0 ∷ []) fresh
verify_file-Evidence_example =
    verify_file-Evidence no_hash server toy (codes "f") key (0 ∷ []) fresh report reported refl

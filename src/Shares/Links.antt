-- ===== src/Shares/Links.antt =====
-- internal/server/share.go: the life of a link, from `handleShareCreate` to its expiry.
use discord_free_cloud.Base.{
  ℕ, suc, zero, ◌+◌, ◌<◌, ◌≤◌, ◌≡◌, refl, ap, ◌∙◌, List, [], ◌∷◌, ◌++◌, Bool, true, false, some,
  none, Result, ok, err, ltb, if◌then◌else◌, arith, ℤ, pos, negsuc, Text, codes, bytes_eq,
  bytes_eq_refl, has_prefix, Bool-cases, inl, inr,
}
use discord_free_cloud.Db.{FileRecord, ShareRecord, Store}
use discord_free_cloud.Db.Rows.{
  first_row, update_where, delete_where, first_row-append, first_row-update_where,
  first_row-delete_where,
}
use discord_free_cloud.Db.Faults.{query-online, exec-done}
use discord_free_cloud.Db.Files.{first_file, get_file}
use discord_free_cloud.Db.Shares.{
  with_hash, with_share_id, touched, create_share-fresh, get_share, touch_share, delete_share_by_id,
}
use discord_free_cloud.Shares.{
  max_ttl, ttl_of, trim_api_prefix, hash_share, share_file, link_for, link_made,
  handle_share_create, serve_file, serve_share, handle_share_public,
}

-- the catalog at another time
abbrev pub at : ℕ → Store → Store
at time s = record s { now = time }

abbrev pub path_of : Text → Text
path_of token = codes "/api/share/" ++ token

ttl_of_bounds : (asked : ℤ) → (0 < ttl_of asked) × (ttl_of asked ≤ max_ttl)
unfolding ttl_of
ttl_of_bounds (negsuc n) = (omega arith, omega arith)
ttl_of_bounds (pos zero) = (omega arith, omega arith)
ttl_of_bounds (pos (suc n)) = (ground arith, ground arith)

trim_api_prefix-path_of :
    (token : Text) → trim_api_prefix (path_of token) (codes "/api/share/") ≡ token
unfolding trim_api_prefix has_prefix
trim_api_prefix-path_of token = refl

module _ (sha256_hex : Text → Text) where
  abbrev pub row_of_link : Text → Text → Text → ℕ → ℕ → ShareRecord
  row_of_link id token file_id created expires = record {
    id = id;
    token_hash = hash_share sha256_hex token;
    file_id = file_id;
    expires_at = expires;
    created_at = created;
    downloads = 0;
  }

  -- a table with a link behind the others, which it does not share its hash with
  public_found :
      (token : Text) (inline : Bool) (share : ShareRecord) (f : FileRecord) (s : Store)
      → s.faults ≡ []
      → bytes_eq token [] ≡ false
      → first_row (with_hash (hash_share sha256_hex token)) s.shares ≡ some share
      → first_file (λ g. bytes_eq g.id share.file_id) s.files ≡ ok f
      → handle_share_public sha256_hex true true inline (path_of token) s ≡ (
          if ltb share.expires_at s.now
          then (err 410, record s { shares = delete_where (with_share_id share.id) s.shares })
          else (
            ok (share.file_id, inline),
            record s {
              shares = update_where (with_hash (hash_share sha256_hex token)) touched s.shares;
            },
          ))
  unfolding handle_share_public serve_share serve_file get_share get_file touch_share
      delete_share_by_id
  public_found token inline share f s online filled found file =
      let hash : Text = hash_share sha256_hex token in
      rw
        (
          trim_api_prefix-path_of token,
          filled,
          query-online (λ t. ok (first_row (with_hash hash) t.shares)) s online,
          found,
          query-online (λ t. first_file (λ g. bytes_eq g.id share.file_id) t.files) s online,
          file,
          exec-done (λ t. ok (record t { shares = delete_where (with_share_id share.id) t.shares }))
              s _ online refl,
          exec-done (λ t. ok (record t { shares = update_where (with_hash hash) touched t.shares }))
              s _ online refl,
        )
        refl

  public_missing :
      (token : Text) (inline : Bool) (s : Store)
      → s.faults ≡ []
      → bytes_eq token [] ≡ false
      → first_row (with_hash (hash_share sha256_hex token)) s.shares ≡ none
      → handle_share_public sha256_hex true true inline (path_of token) s ≡ (err 404, s)
  unfolding handle_share_public serve_share get_share
  public_missing token inline s online filled missing =
      let hash : Text = hash_share sha256_hex token in
      rw
        (
          trim_api_prefix-path_of token,
          filled,
          query-online (λ t. ok (first_row (with_hash hash) t.shares)) s online,
          missing,
        )
        refl

  -- With a fresh token, a link for a file of the catalog is made.
  create_done :
      (asked : ℤ) (token id : Text) (f : FileRecord) (s : Store)
      → s.faults ≡ []
      → bytes_eq f.id [] ≡ false
      → first_file (λ g. bytes_eq g.id f.id) s.files ≡ ok f
      → f.is_dir ≡ false
      → first_row (with_hash (hash_share sha256_hex token)) s.shares ≡ none
      → handle_share_create sha256_hex true true (some (f.id, asked)) (some token) id s ≡ (
        ok (record {
          token = token;
          file_id = f.id;
          name = f.name;
          expires_at = s.now + ttl_of asked;
        }),
        record s {
          shares = s.shares ++ (row_of_link id token f.id s.now (s.now + ttl_of asked) ∷ []);
        },
      )
  unfolding handle_share_create share_file link_for link_made get_file
  create_done asked token id f s online named file plain fresh =
      rw
        (
          named,
          query-online (λ t. first_file (λ g. bytes_eq g.id f.id) t.files) s online,
          file,
          plain,
          create_share-fresh id (hash_share sha256_hex token) f.id (s.now + ttl_of asked) s online
              fresh,
        )
        refl

  -- A second request for a link, by what the first one found.
  abbrev pub second_answer : Text → Bool → ℕ → ℕ → ℕ → Result ℕ (Text × Bool)
  second_answer file_id inline expires time later =
      if ltb expires time
      then err 404
      else if ltb expires later
      then err 410
      else ok (file_id, inline)

  -- the link stands behind rows of other hashes
  found_link :
      (rows : List ShareRecord) (id token file_id : Text) (created expires : ℕ)
      → first_row (with_hash (hash_share sha256_hex token)) rows ≡ none
      → first_row
          (with_hash (hash_share sha256_hex token))
          (rows ++ (row_of_link id token file_id created expires ∷ []))
        ≡ some (row_of_link id token file_id created expires)
  unfolding with_hash
  found_link rows id token file_id created expires fresh =
      first_row-append (with_hash (hash_share sha256_hex token)) rows _ fresh
      ∙ rw (bytes_eq_refl (hash_share sha256_hex token)) refl

  -- the first two requests for a link that stands in the table
  two_requests :
      (rows : List ShareRecord) (id token : Text) (created expires : ℕ) (f : FileRecord) (s : Store)
      (inline : Bool) (time later : ℕ)
      → s.faults ≡ []
      → bytes_eq token [] ≡ false
      → first_file (λ g. bytes_eq g.id f.id) s.files ≡ ok f
      → s.shares ≡ rows ++ (row_of_link id token f.id created expires ∷ [])
      → first_row (with_hash (hash_share sha256_hex token)) rows ≡ none
      → let first = handle_share_public sha256_hex true true inline (path_of token) (at time s) in
        (first.0 ≡ (if ltb expires time then err 410 else ok (f.id, inline)))
        × ((handle_share_public sha256_hex true true inline (path_of token) (at later first.1)).0
            ≡ second_answer f.id inline expires time later)
  unfolding with_hash with_share_id touched
  two_requests rows id token created expires f s inline time later online filled file table fresh =
      let hash : Text = hash_share sha256_hex token in
      let row : ShareRecord = row_of_link id token f.id created expires in
      let found : first_row (with_hash hash) s.shares ≡ some row =
        ap (first_row (with_hash hash)) table
        ∙ found_link rows id token f.id created expires fresh in
      elim (Bool-cases (ltb expires time)) [
        | inl over ↦
            let gone : first_row (with_hash hash) (delete_where (with_share_id id) s.shares)
                ≡ none =
              ap (λ t. first_row (with_hash hash) (delete_where (with_share_id id) t)) table
              ∙ first_row-delete_where (with_hash hash) (with_share_id id) rows row fresh
                  (bytes_eq_refl id) in
            rw (public_found token inline row f (at time s) online filled found file, over)
              (
                refl,
                ap (λ (r : Result ℕ (Text × Bool) × Store). r.0)
                    (public_missing token inline
                      (record s { shares = delete_where (with_share_id id) s.shares; now = later })
                      online filled gone),
              )
        | inr alive ↦
            let seen : first_row (with_hash hash) (update_where (with_hash hash) touched s.shares)
                ≡ some (touched row) =
              first_row-update_where (with_hash hash) touched s.shares row (λ a. refl) found in
            rw (public_found token inline row f (at time s) online filled found file, alive)
              (
                refl,
                rw
                    (public_found token inline (touched row) f
                      (record s {
                        shares = update_where (with_hash hash) touched s.shares;
                        now = later;
                      })
                      online filled seen file)
                    (ground arith),
              )
      ]

  -- Where the catalog answers, the drive is unlocked, the file is there and no folder, and the
  -- (nonempty) token is fresh: a link is made, its life is between one second and 365 days, a request
  -- for it gets the file up to its expiry and status 410 behind it, and a second request gets the file
  -- or 410 in the same way, or 404 once an expired link was asked for.
  pub handle_share_create-lives :
      (asked : ℤ) (token id : Text) (f : FileRecord) (s : Store) (inline : Bool) (time later : ℕ)
      → s.faults ≡ []
      → bytes_eq f.id [] ≡ false
      → first_file (λ g. bytes_eq g.id f.id) s.files ≡ ok f
      → f.is_dir ≡ false
      → bytes_eq token [] ≡ false
      → first_row (with_hash (hash_share sha256_hex token)) s.shares ≡ none
      → let expires = s.now + ttl_of asked in
        let made =
          handle_share_create sha256_hex true true (some (f.id, asked)) (some token) id s in
        let first =
          handle_share_public sha256_hex true true inline (path_of token) (at time made.1) in
        let second =
          handle_share_public sha256_hex true true inline (path_of token) (at later first.1) in
        (made.0
          ≡ ok (record { token = token; file_id = f.id; name = f.name; expires_at = expires }))
        × (s.now < expires)
        × (expires ≤ s.now + max_ttl)
        × (first.0 ≡ (if ltb expires time then err 410 else ok (f.id, inline)))
        × (second.0 ≡ second_answer f.id inline expires time later)
  handle_share_create-lives asked token id f s inline time later online named file plain filled
        fresh =
      let (low, high) = ttl_of_bounds asked in
      let (one, two) =
        two_requests s.shares id token s.now (s.now + ttl_of asked) f
          (record s {
            shares = s.shares ++ (row_of_link id token f.id s.now (s.now + ttl_of asked) ∷ []);
          })
          inline time later online filled file refl fresh in
      rw (create_done asked token id f s online named file plain fresh)
        (refl, omega (arith, low), omega (arith, high), one, two)

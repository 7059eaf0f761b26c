-- ===== src/Db/Shares.antt =====
-- internal/db/share.go: the table `shares`. The hash of a token is its primary key.
use discord_free_cloud.Base.{
  ℕ, ◌+◌, List, [], ◌∷◌, ◌++◌, Bool, Option, some, none, Result, ok, err, leb, ltb, map, Text,
  bytes_eq, ◌≡◌, refl,
}
use discord_free_cloud.Db.{
  FileRecord, ShareRecord, Store, DbError, constraint_violated, query, exec,
}
use discord_free_cloud.Db.Faults.{exec-done}
use discord_free_cloud.Db.Rows.{select, update_where, order_by, first_row, delete_where}

unfoldable pub with_hash : Text → ShareRecord → Bool
with_hash hash r = bytes_eq r.token_hash hash

unfoldable pub with_share_id : Text → ShareRecord → Bool
with_share_id id r = bytes_eq r.id id

add_share : Option ShareRecord → ShareRecord → Store → Result DbError Store
add_share (some taken) r s = err constraint_violated
add_share none r s = ok (record s { shares = s.shares ++ (r ∷ []) })

unfoldable pub create_share :
    (id token_hash file_id : Text) (expires_at : ℕ) → Store → Result DbError (Unit {0}) × Store
unfolding add_share first_row with_hash
create_share id token_hash file_id expires_at = exec λ s.
    add_share (first_row (with_hash token_hash) s.shares)
      (record {
        id = id;
        token_hash = token_hash;
        file_id = file_id;
        expires_at = expires_at;
        created_at = s.now;
        downloads = 0;
      })
      s

-- No row is no error.
unfoldable pub get_share : Text → Store → Result DbError (Option ShareRecord) × Store
unfolding first_row with_hash
get_share token_hash = query λ s. ok (first_row (with_hash token_hash) s.shares)

unfoldable pub get_share_by_id : Text → Store → Result DbError (Option ShareRecord) × Store
unfolding first_row with_share_id
get_share_by_id id = query λ s. ok (first_row (with_share_id id) s.shares)

unfoldable pub touched : ShareRecord → ShareRecord
touched r = record r { downloads = r.downloads + 1 }

unfoldable pub touch_share : Text → Store → Result DbError (Unit {0}) × Store
unfolding update_where with_hash touched
touch_share token_hash =
    exec λ s. ok (record s { shares = update_where (with_hash token_hash) touched s.shares })

unfoldable pub delete_share_by_id : Text → Store → Result DbError (Unit {0}) × Store
unfolding delete_where with_share_id
delete_share_by_id id =
    exec λ s. ok (record s { shares = delete_where (with_share_id id) s.shares })

pub delete_shares_for_file : Text → Store → Result DbError (Unit {0}) × Store
unfolding delete_where
delete_shares_for_file file_id =
    exec λ s. ok (record s { shares = delete_where (λ r. bytes_eq r.file_id file_id) s.shares })

-- ORDER BY created_at DESC
newest_first : ShareRecord → ShareRecord → Bool
newest_first r q = leb q.created_at r.created_at

pub list_shares_for_file : Text → Store → Result DbError (List ShareRecord) × Store
unfolding select order_by newest_first
list_shares_for_file file_id =
    query λ s. ok (order_by newest_first (select (λ r. bytes_eq r.file_id file_id) s.shares))

-- a row of `ListAllShares`
pub record ListedShare : Type 0 where
  pub share : ShareRecord
  pub file_name : Text
  pub expired : Bool

-- COALESCE(f.name, '') of the LEFT JOIN
name_or_empty : Option FileRecord → Text
name_or_empty none = []
name_or_empty (some f) = f.name

pub list_all_shares : ℕ → Store → Result DbError (List ListedShare) × Store
unfolding order_by newest_first first_row name_or_empty
list_all_shares now = query λ s. ok (
    map
      (λ (r : ShareRecord). record {
        share = record r { token_hash = [] };
        file_name = name_or_empty (first_row (λ (f : FileRecord). bytes_eq f.id r.file_id) s.files);
        expired = ltb r.expires_at now;
      })
      (order_by newest_first s.shares))

-- A link with a fresh hash is stored behind the others.
pub create_share-fresh :
    (id token_hash file_id : Text) (expires_at : ℕ) (s : Store)
    → s.faults ≡ []
    → first_row (with_hash token_hash) s.shares ≡ none
    → create_share id token_hash file_id expires_at s ≡ (
      ok tt,
      record s {
        shares =
            s.shares
            ++ (record {
              id = id;
              token_hash = token_hash;
              file_id = file_id;
              expires_at = expires_at;
              created_at = s.now;
              downloads = 0;
            }
                ∷ []);
      },
    )
unfolding create_share add_share
create_share-fresh id token_hash file_id expires_at s online fresh =
    exec-done _ s _ online (rw fresh refl)

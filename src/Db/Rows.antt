-- ===== src/Db/Rows.antt =====
-- internal/db/db.go: what the clauses of a query select, order and set, for the rows of any table.
use discord_free_cloud.Base.{
  List, [], ◌∷◌, Bool, Option, some, none, if◌then◌else◌, true, ◌++◌, ◌≡◌, refl, arith,
}

module _ {ℓ} {A : Type ℓ} where
  -- the rows that a WHERE clause selects
  unfoldable pub select : (A → Bool) → List A → List A
  select p [] = []
  select p (c ∷ cs) = let rest = select p cs in if p c then c ∷ rest else rest

  -- UPDATE ... SET ... WHERE
  unfoldable pub update_where : (A → Bool) → (A → A) → List A → List A
  update_where p f [] = []
  update_where p f (c ∷ cs) = (if p c then f c else c) ∷ update_where p f cs

  -- A row in front of the first row that it may stand before. What ORDER BY leaves open is the order
  -- of the table.
  unfoldable pub insert_by : (A → A → Bool) → A → List A → List A
  insert_by before c [] = c ∷ []
  insert_by before c (d ∷ ds) = if before c d then c ∷ d ∷ ds else d ∷ insert_by before c ds

  unfoldable pub order_by : (A → A → Bool) → List A → List A
  unfolding insert_by
  order_by before [] = []
  order_by before (c ∷ cs) = insert_by before c (order_by before cs)

  -- the first row that a WHERE clause selects
  unfoldable pub first_row : (A → Bool) → List A → Option A
  first_row p [] = none
  first_row p (c ∷ cs) = let rest = first_row p cs in if p c then some c else rest

  -- DELETE ... WHERE
  unfoldable pub delete_where : (A → Bool) → List A → List A
  delete_where p [] = []
  delete_where p (c ∷ cs) = let rest = delete_where p cs in if p c then rest else c ∷ rest

  -- A row behind the others is the first one that a clause selects if it selects no other.
  pub first_row-append :
      (p : A → Bool) (xs : List A) (r : A)
      → first_row p xs ≡ none
      → first_row p (xs ++ (r ∷ [])) ≡ (if p r then some r else none)
  unfolding first_row
  first_row-append p [] r h = refl
  first_row-append p (x ∷ xs) r h = ground (arith, first_row-append p xs r)

  -- An update that a clause does not see keeps what it selects, up to the update.
  pub first_row-update_where :
      (p : A → Bool) (f : A → A) (xs : List A) (r : A)
      → ((a : A) → p (f a) ≡ p a)
      → first_row p xs ≡ some r
      → first_row p (update_where p f xs) ≡ some (f r)
  unfolding first_row update_where
  first_row-update_where p f [] r k h = cc
  first_row-update_where p f (x ∷ xs) r k h = ground (arith, first_row-update_where p f xs r k, k x)

  -- Behind a deletion a clause selects no row that it did not select before.
  first_row-delete_where-none :
      (p q : A → Bool) (xs : List A)
      → first_row p xs ≡ none
      → first_row p (delete_where q xs) ≡ none
  unfolding first_row delete_where
  first_row-delete_where-none p q [] h = refl
  first_row-delete_where-none p q (x ∷ xs) h = ground (arith, first_row-delete_where-none p q xs)

  -- Nor one that the deletion has removed.
  pub first_row-delete_where :
      (p q : A → Bool) (xs : List A) (r : A)
      → first_row p xs ≡ none
      → q r ≡ true
      → first_row p (delete_where q (xs ++ (r ∷ []))) ≡ none
  unfolding first_row delete_where
  first_row-delete_where p q [] r h gone = ground (arith, gone)
  first_row-delete_where p q (x ∷ xs) r h gone =
      ground (arith, first_row-delete_where p q xs r, gone)

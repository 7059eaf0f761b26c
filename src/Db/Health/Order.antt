-- ===== src/Db/Health/Order.antt =====
-- internal/db/db.go and internal/server/qol.go: the tally of the parts of a file does not depend on the
-- order of the rows.
use discord_free_cloud.Base.{
  ℕ, suc, List, [], ◌∷◌, Bool, true, false, ◌||◌, arith, ◌≡◌, ◌↔◌, refl, sym, ap, ◌∙◌, Bool-cases,
  inl, inr, length, ==_iff, bytes_eq, bytes_eq_iff, if◌then◌else◌, Text,
}
use discord_free_cloud.Db.{ChunkRecord}
use discord_free_cloud.Db.Chunks.{is_completed}
use discord_free_cloud.Db.Rows.{insert_by, order_by}
use discord_free_cloud.Db.Health.{
  Tally, member, add_to_set, same_index, put_guild, add_row, tally_rows, health_of,
}

module _ {ℓ} {A : Type ℓ} (eq : A → A → Bool) where
  abbrev Alike : List A → List A → Type ℓ
  Alike xs ys = ((a : A) → member eq a xs ≡ member eq a ys) × (length xs ≡ length ys)

  cons-Alike : (x : A) (xs ys : List A) → Alike xs ys → Alike (x ∷ xs) (x ∷ ys)
  unfolding member
  cons-Alike x xs ys (same, count) = (λ a. ap (λ b. eq x a || b) (same a), omega arith)

  add_to_set-Alike :
      (x : A) (xs ys : List A) → Alike xs ys → Alike (add_to_set eq x xs) (add_to_set eq x ys)
  unfolding add_to_set
  add_to_set-Alike x xs ys (same, count) = elim (Bool-cases (member eq x xs)) [
    | inl e ↦ rw (e, sym (same x) ∙ e) (same, count)
    | inr e ↦ rw (e, sym (same x) ∙ e) (cons-Alike x xs ys (same, count))
  ]

  Alike-refl : (xs : List A) → Alike xs xs
  Alike-refl xs = (λ a. refl, refl)

  Alike-trans : (xs ys zs : List A) → Alike xs ys → Alike ys zs → Alike xs zs
  Alike-trans xs ys zs (s, m) (t, n) = (λ a. s a ∙ t a, m ∙ n)

bool_ext : (a b : Bool) → (a ≡ true → b ≡ true) → (b ≡ true → a ≡ true) → a ≡ b
bool_ext true b f g = sym (f refl)
bool_ext false true f g = g refl
bool_ext false false f g = refl

put_lengths :
    (p m n q : Bool) (k : ℕ)
    → p ≡ q
    → (p ≡ true → m ≡ n)
    → (if p || m then if n then k else suc k else suc (if n then k else suc k))
      ≡ (if q || n then if m then k else suc k else suc (if m then k else suc k))
put_lengths true m n q k e h = rw (sym e, h refl) refl
put_lengths false true true q k e h = rw (sym e) refl
put_lengths false true false q k e h = rw (sym e) refl
put_lengths false false true q k e h = rw (sym e) refl
put_lengths false false false q k e h = rw (sym e) refl

or_swap : (a b c : Bool) → (a || (b || c)) ≡ (b || (a || c))
or_swap true true c = refl
or_swap true false c = refl
or_swap false true c = refl
or_swap false false c = refl

module _ {ℓ} {A : Type ℓ} (eq : A → A → Bool) (eq_iff : (x y : A) → (eq x y ≡ true) ↔ (x ≡ y)) where
  member-add_to_set :
      (a x : A) (xs : List A) → member eq a (add_to_set eq x xs) ≡ (eq x a || member eq a xs)
  unfolding add_to_set member
  member-add_to_set a x xs = elim (Bool-cases (member eq x xs)) [
    | inl e ↦ elim (Bool-cases (eq x a)) [
      | inl h ↦
          let there : member eq a xs ≡ true =
            ap (λ z. member eq z xs) (sym ((eq_iff x a).0 h)) ∙ e in
          rw (e, h, there) refl
      | inr h ↦ rw (e, h) refl
    ]
    | inr e ↦ rw e refl
  ]

  length-add_to_set :
      (x : A) (xs : List A)
      → length (add_to_set eq x xs) ≡ (if member eq x xs then length xs else suc (length xs))
  unfolding add_to_set
  length-add_to_set x xs = elim (Bool-cases (member eq x xs)) [
    | inl e ↦ rw e refl
    | inr e ↦ rw e refl
  ]

  add_to_set-swap :
      (x y : A) (xs : List A)
      → Alike eq (add_to_set eq x (add_to_set eq y xs)) (add_to_set eq y (add_to_set eq x xs))
  add_to_set-swap x y xs =
      let symmetric : eq y x ≡ eq x y =
        bool_ext (eq y x) (eq x y) (λ h. (eq_iff x y).1 (sym ((eq_iff y x).0 h)))
          (λ h. (eq_iff y x).1 (sym ((eq_iff x y).0 h))) in
      let alike : eq y x ≡ true → member eq x xs ≡ member eq y xs =
        λ h. ap (λ z. member eq z xs) (sym ((eq_iff y x).0 h)) in
      (
        λ a.
            member-add_to_set a x (add_to_set eq y xs)
            ∙ ap (λ b. eq x a || b) (member-add_to_set a y xs)
            ∙ or_swap (eq x a) (eq y a) (member eq a xs)
            ∙ sym (
                member-add_to_set a y (add_to_set eq x xs)
                ∙ ap (λ b. eq y a || b) (member-add_to_set a x xs)),
        rw
            (
              length-add_to_set x (add_to_set eq y xs),
              length-add_to_set y (add_to_set eq x xs),
              member-add_to_set x y xs,
              member-add_to_set y x xs,
              length-add_to_set x xs,
              length-add_to_set y xs,
            )
            (put_lengths (eq y x) (member eq x xs) (member eq y xs) (eq x y) (length xs) symmetric
              alike),
      )

-- tallies that say the same
abbrev Agree : Tally → Tally → Type 0
Agree t u =
    (Alike same_index t.seen_parts u.seen_parts × Alike same_index t.stored_parts u.stored_parts)
    × ((t.stored_count ≡ u.stored_count) × Alike bytes_eq t.guilds u.guilds)

put_guild-Alike :
    (g : Text) (xs ys : List Text)
    → Alike bytes_eq xs ys
    → Alike bytes_eq (put_guild g xs) (put_guild g ys)
unfolding put_guild
put_guild-Alike g xs ys h = elim (Bool-cases (bytes_eq g [])) [
  | inl e ↦ rw e h
  | inr e ↦ rw e (add_to_set-Alike bytes_eq g xs ys h)
]

put_guild-swap :
    (g h : Text) (xs : List Text)
    → Alike bytes_eq (put_guild g (put_guild h xs)) (put_guild h (put_guild g xs))
unfolding put_guild
put_guild-swap g h xs = elim (Bool-cases (bytes_eq g [])) [
  | inl e ↦ rw e (Alike-refl bytes_eq _)
  | inr e ↦ elim (Bool-cases (bytes_eq h [])) [
    | inl f ↦ rw (e, f) (Alike-refl bytes_eq _)
    | inr f ↦ rw (e, f) (add_to_set-swap bytes_eq bytes_eq_iff g h xs)
  ]
]

Agree-refl : (t : Tally) → Agree t t
Agree-refl t = ((Alike-refl same_index _, Alike-refl same_index _), (refl, Alike-refl bytes_eq _))

Agree-trans : (t u v : Tally) → Agree t u → Agree u v → Agree t v
Agree-trans t u v ((a, b), (n, g)) ((a', b'), (n', g')) = (
  (Alike-trans same_index _ _ _ a a', Alike-trans same_index _ _ _ b b'),
  (n ∙ n', Alike-trans bytes_eq _ _ _ g g'),
)

add_row-Agree : (c : ChunkRecord) (t u : Tally) → Agree t u → Agree (add_row t c) (add_row u c)
unfolding add_row
add_row-Agree c t u ((a, b), (n, g)) = elim (Bool-cases (is_completed c.status)) [
  | inl e ↦ rw e (
    (
      add_to_set-Alike same_index c.chunk_index _ _ a,
      add_to_set-Alike same_index c.chunk_index _ _ b,
    ),
    (omega arith, put_guild-Alike c.guild_id _ _ g),
  )
  | inr e ↦ rw e ((add_to_set-Alike same_index c.chunk_index _ _ a, b), (n, g))
]

add_row-swap :
    (c d : ChunkRecord) (t : Tally) → Agree (add_row (add_row t c) d) (add_row (add_row t d) c)
unfolding add_row
add_row-swap c d t = elim (Bool-cases (is_completed c.status)) [
  | inl e ↦ elim (Bool-cases (is_completed d.status)) [
    | inl f ↦
        rw (e, f)
          (
            (
              add_to_set-swap same_index ==_iff d.chunk_index c.chunk_index t.seen_parts,
              add_to_set-swap same_index ==_iff d.chunk_index c.chunk_index t.stored_parts,
            ),
            (refl, put_guild-swap d.guild_id c.guild_id t.guilds),
          )
    | inr f ↦
        rw (e, f)
          (
            (
              add_to_set-swap same_index ==_iff d.chunk_index c.chunk_index t.seen_parts,
              Alike-refl same_index _,
            ),
            (refl, Alike-refl bytes_eq _),
          )
  ]
  | inr e ↦ elim (Bool-cases (is_completed d.status)) [
    | inl f ↦
        rw (e, f)
          (
            (
              add_to_set-swap same_index ==_iff d.chunk_index c.chunk_index t.seen_parts,
              Alike-refl same_index _,
            ),
            (refl, Alike-refl bytes_eq _),
          )
    | inr f ↦
        rw (e, f)
          (
            (
              add_to_set-swap same_index ==_iff d.chunk_index c.chunk_index t.seen_parts,
              Alike-refl same_index _,
            ),
            (refl, Alike-refl bytes_eq _),
          )
  ]
]

tally_rows-Agree :
    (cs : List ChunkRecord) (t u : Tally) → Agree t u → Agree (tally_rows t cs) (tally_rows u cs)
unfolding tally_rows
tally_rows-Agree [] t u h = h
tally_rows-Agree (c ∷ cs) t u h = tally_rows-Agree cs _ _ (add_row-Agree c t u h)

tally_rows-insert_by :
    (before : ChunkRecord → ChunkRecord → Bool) (c : ChunkRecord) (cs : List ChunkRecord)
    (t : Tally)
    → Agree (tally_rows t (insert_by before c cs)) (tally_rows t (c ∷ cs))
unfolding tally_rows insert_by
tally_rows-insert_by before c [] t = Agree-refl _
tally_rows-insert_by before c (d ∷ ds) t = elim (Bool-cases (before c d)) [
  | inl e ↦ rw e (Agree-refl _)
  | inr e ↦ rw e (
      Agree-trans _ _ _ (tally_rows-insert_by before c ds (add_row t d))
        (tally_rows-Agree ds _ _ (add_row-swap d c t)))
]

tally_rows-order_by :
    (before : ChunkRecord → ChunkRecord → Bool) (cs : List ChunkRecord) (t : Tally)
    → Agree (tally_rows t (order_by before cs)) (tally_rows t cs)
unfolding tally_rows order_by
tally_rows-order_by before [] t = Agree-refl t
tally_rows-order_by before (c ∷ cs) t =
    Agree-trans _ _ _ (tally_rows-insert_by before c (order_by before cs) t)
      (tally_rows-order_by before cs (add_row t c))

-- The health of the rows in an order is that of the rows.
pub health_of-order_by :
    (before : ChunkRecord → ChunkRecord → Bool) (cs : List ChunkRecord) (t : Tally)
    → health_of (tally_rows t (order_by before cs)) ≡ health_of (tally_rows t cs)
unfolding health_of
health_of-order_by before cs t =
    let ((a, b), (n, g)) = tally_rows-order_by before cs t in rw (a.1, b.1, n, g.1) refl

-- ===== src/Auth/Sessions.antt =====
-- internal/server/auth.go: the sessions of the server refine one deadline for each session id.
use discord_free_cloud.Base.{
  ℕ, ◌+◌, ◌≡◌, refl, sym, ap, ◌∙◌, List, [], ◌∷◌, false, Option, some, none, ltb, if◌then◌else◌,
  arith, Text, bytes_eq, bytes_eq_iff, lookup, insert, remove, lookup-insert, lookup-remove,
  Bool-cases, Option-cases, inl, inr,
}
use discord_free_cloud.Cache.Valid.{present}
use discord_free_cloud.Auth.{
  Server, session_lifetime, hash_session_id, found_session, check_session, prune_sessions,
  issue_session, revoke_all_sessions, lock_session,
}

-- a map: no key has a second entry
abbrev pub IsMap : List (Text × ℕ) → Type 0
IsMap [] = Unit {0}
IsMap ((k, exp) ∷ m) = (lookup k m ≡ none) × IsMap m

insert-IsMap : (k : Text) (exp : ℕ) (m : List (Text × ℕ)) → IsMap m → IsMap (insert k exp m)
unfolding insert lookup
insert-IsMap k exp [] v = (refl, tt)
insert-IsMap k exp ((j, old) ∷ m) (new, v) = elim (Bool-cases (bytes_eq j k)) [
  | inl same ↦ rw same (new, v)
  | inr other ↦
      let apart : bytes_eq k j ≡ false = ground (arith, bytes_eq_iff j k, bytes_eq_iff k j) in
      rw other (lookup-insert k j exp m ∙ rw apart new, insert-IsMap k exp m v)
]

remove-IsMap : (k : Text) (m : List (Text × ℕ)) → IsMap m → IsMap (remove k m)
unfolding remove
remove-IsMap k [] v = tt
remove-IsMap k ((j, old) ∷ m) (new, v) = elim (Bool-cases (bytes_eq j k)) [
  | inl same ↦ rw same (remove-IsMap k m v)
  | inr other ↦ rw other (lookup-remove k j m ∙ ground (arith, new), remove-IsMap k m v)
]

-- the deadline of an entry that has not passed
abbrev pub alive : ℕ → Option ℕ → Option ℕ
alive clock none = none
alive clock (some exp) = if ltb exp clock then none else some exp

lookup-prune_none :
    (k : Text) (clock : ℕ) (m : List (Text × ℕ))
    → lookup k m ≡ none
    → lookup k (prune_sessions clock m) ≡ none
unfolding prune_sessions lookup
lookup-prune_none k clock [] h = refl
lookup-prune_none k clock ((j, exp) ∷ m) h = ground (arith, lookup-prune_none k clock m)

prune-IsMap : (clock : ℕ) (m : List (Text × ℕ)) → IsMap m → IsMap (prune_sessions clock m)
unfolding prune_sessions
prune-IsMap clock [] v = tt
prune-IsMap clock ((j, exp) ∷ m) (new, v) =
    ground (arith, prune-IsMap clock m v, lookup-prune_none j clock m new)

-- Pruning drops only what has expired.
alive-prune :
    (k : Text) (clock : ℕ) (m : List (Text × ℕ))
    → IsMap m
    → alive clock (lookup k (prune_sessions clock m)) ≡ alive clock (lookup k m)
unfolding prune_sessions lookup
alive-prune k clock [] v = refl
alive-prune k clock ((j, exp) ∷ m) (new, v) = elim (Bool-cases (bytes_eq j k)) [
  | inl same ↦
      let e : j ≡ k = (bytes_eq_iff j k).0 same in
      let gone : lookup k m ≡ none = rw (sym e) new in
      ground (arith, same, lookup-prune_none k clock m gone)
  | inr other ↦ ground (arith, other, alive-prune k clock m v)
]

alive_later :
    (clock time : ℕ) (o : Option ℕ) → alive (clock + time) o ≡ alive (clock + time) (alive clock o)
alive_later clock time none = refl
alive_later clock time (some exp) = ground arith

-- what a server sees
pub data Event : Type 0 where
  browse : Text → Event
  login : Option Text → Event
  logout : Option Text → Event
  revoke : Event
  pass : ℕ → Event

-- one session id as its user sees it
pub record Session : Type 0 where
  pub now : ℕ
  pub deadline : Option ℕ

abbrev pub renewed : ℕ → Option ℕ → Option ℕ
renewed now none = none
renewed now (some exp) = some (now + session_lifetime)

module _ (sha256_hex : Text → Text) where
  pub step : Event → Server → Server
  step (browse token) srv = (check_session sha256_hex token srv).1
  step (login token) srv = (issue_session sha256_hex token srv).1
  step (logout cookie) srv = lock_session sha256_hex cookie srv
  step revoke srv = revoke_all_sessions srv
  step (pass time) srv = record srv { clock = srv.clock + time }

  pub run : List Event → Server → Server
  unfolding step
  run [] srv = srv
  run (e ∷ es) srv = run es (step e srv)

  -- The abstract session: a login sets its deadline, a visit in time renews it, a logout and a
  -- revocation end it, and it ends by itself behind its deadline. Events of other ids do not count.
  abbrev pub session_step : Text → Event → Session → Session
  session_step id (browse token) s =
      if bytes_eq token []
      then s
      else if bytes_eq (hash_session_id sha256_hex token) id
      then record s { deadline = renewed s.now s.deadline }
      else s
  session_step id (login none) s = s
  session_step id (login (some token)) s =
      if bytes_eq (hash_session_id sha256_hex token) id
      then record s { deadline = some (s.now + session_lifetime) }
      else s
  session_step id (logout none) s = s
  session_step id (logout (some cookie)) s =
      if bytes_eq (hash_session_id sha256_hex cookie) id then record s { deadline = none } else s
  session_step id revoke s = record s { deadline = none }
  session_step id (pass time) s = record s {
    now = s.now + time;
    deadline = alive (s.now + time) s.deadline;
  }

  unfoldable pub session_run : Text → List Event → Session → Session
  session_run id [] s = s
  session_run id (e ∷ es) s = session_run id es (session_step id e s)

  abbrev pub session_of : Text → Server → Session
  session_of id srv = record {
    now = srv.clock;
    deadline = alive srv.clock (lookup id srv.sessions);
  }

  found_session-IsMap :
      (own : Text) (o : Option ℕ) (srv : Server)
      → IsMap srv.sessions
      → IsMap (found_session own o srv).1.sessions
  unfolding found_session
  found_session-IsMap own none srv v = v
  found_session-IsMap own (some exp) srv v = ground (
    arith,
    remove-IsMap own srv.sessions v,
    insert-IsMap own (srv.clock + session_lifetime) srv.sessions v,
  )

  session_of-found :
      (id own : Text) (o : Option ℕ) (srv : Server)
      → lookup own srv.sessions ≡ o
      → session_of id (found_session own o srv).1 ≡ (
          if bytes_eq own id
          then record (session_of id srv) {
            deadline = renewed srv.clock (session_of id srv).deadline;
          }
          else session_of id srv)
  unfolding found_session
  session_of-found id own none srv e = elim (Bool-cases (bytes_eq own id)) [
    | inl same ↦
        let h : own ≡ id = (bytes_eq_iff own id).0 same in
        let gone : lookup id srv.sessions ≡ none = rw (sym h) e in rw (same, gone)
    | inr other ↦ rw other
  ]
  session_of-found id own (some exp) srv e = elim (Bool-cases (bytes_eq own id)) [
    | inl same ↦
        let h : own ≡ id = (bytes_eq_iff own id).0 same in
        let kept : lookup id srv.sessions ≡ some exp = rw (sym h) e in
        ground (
          arith,
          same,
          lookup-remove own id srv.sessions,
          lookup-insert own id (srv.clock + session_lifetime) srv.sessions,
        )
    | inr other ↦ ground (
      arith,
      other,
      lookup-remove own id srv.sessions,
      lookup-insert own id (srv.clock + session_lifetime) srv.sessions,
    )
  ]

  step-IsMap : (e : Event) (srv : Server) → IsMap srv.sessions → IsMap (step e srv).sessions
  unfolding step check_session issue_session lock_session revoke_all_sessions
  step-IsMap (browse token) srv v =
      let own : Text = hash_session_id sha256_hex token in
      ground (arith, v, found_session-IsMap own (lookup own srv.sessions) srv v)
  step-IsMap (login none) srv v = v
  step-IsMap (login (some token)) srv v = prune-IsMap srv.clock _ (
      insert-IsMap (hash_session_id sha256_hex token) (srv.clock + session_lifetime) srv.sessions v)
  step-IsMap (logout none) srv v = v
  step-IsMap (logout (some cookie)) srv v =
      remove-IsMap (hash_session_id sha256_hex cookie) srv.sessions v
  step-IsMap revoke srv v = tt
  step-IsMap (pass time) srv v = v

  session_of-step :
      (id : Text) (e : Event) (srv : Server)
      → IsMap srv.sessions
      → session_of id (step e srv) ≡ session_step id e (session_of id srv)
  unfolding step check_session issue_session lock_session revoke_all_sessions lookup
  session_of-step id (browse token) srv v =
      let own : Text = hash_session_id sha256_hex token in
      ground (arith, session_of-found id own (lookup own srv.sessions) srv refl)
  session_of-step id (login none) srv v = refl
  session_of-step id (login (some token)) srv v =
      let own : Text = hash_session_id sha256_hex token in
      let exp : ℕ = srv.clock + session_lifetime in
      ground (
        arith,
        alive-prune id srv.clock (insert own exp srv.sessions)
            (insert-IsMap own exp srv.sessions v),
        lookup-insert own id exp srv.sessions,
      )
  session_of-step id (logout none) srv v = refl
  session_of-step id (logout (some cookie)) srv v =
      ground (arith, lookup-remove (hash_session_id sha256_hex cookie) id srv.sessions)
  session_of-step id revoke srv v = refl
  session_of-step id (pass time) srv v =
      ground (arith, alive_later srv.clock time (lookup id srv.sessions))

  -- While the server starts from a session table that is a map, what is left of the session of one id
  -- behind any sequence of visits, logins, logouts, revocations and pauses is what the abstract session
  -- of that id alone reaches by the same events: pruning and the other sessions do not show.
  pub session_of-run :
      (id : Text) (es : List Event) (srv : Server)
      → IsMap srv.sessions
      → session_of id (run es srv) ≡ session_run id es (session_of id srv)
  unfolding run session_run
  session_of-run id [] srv v = refl
  session_of-run id (e ∷ es) srv v =
      session_of-run id es (step e srv) (step-IsMap e srv v)
      ∙ ap (session_run id es) (session_of-step id e srv v)

  check_session-present :
      (token : Text) (srv : Server)
      → bytes_eq token [] ≡ false
      → (check_session sha256_hex token srv).0
        ≡ present (session_of (hash_session_id sha256_hex token) srv).deadline
  unfolding check_session found_session
  check_session-present token srv h =
      let id : Text = hash_session_id sha256_hex token in
      elim (Option-cases (lookup id srv.sessions)) [
        | inl gone ↦ ground (arith, h, gone)
        | inr (exp, kept) ↦ ground (arith, h, kept)
      ]

  -- Behind any sequence of events, a server that starts from a session table that is a map takes a
  -- token that is not empty for a valid session exactly if the abstract session of its id has a
  -- deadline left.
  pub check_session-run :
      (token : Text) (es : List Event) (srv : Server)
      → IsMap srv.sessions
      → bytes_eq token [] ≡ false
      → (check_session sha256_hex token (run es srv)).0
        ≡ present
            (session_run
              (hash_session_id sha256_hex token)
              es
              (session_of (hash_session_id sha256_hex token) srv)).deadline
  check_session-run token es srv v h =
      check_session-present token (run es srv) h
      ∙ ap (λ (s : Session). present s.deadline)
          (session_of-run (hash_session_id sha256_hex token) es srv v)

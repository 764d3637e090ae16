-- ===== src/Sessions/Laws.antt =====
-- app/auth/sessions.py: a session that has ended does not come back.
use palworld_manager.Prelude.{
  ℕ, ◌≡◌, refl, true, String, none, some, List, [], ◌∷◌, map, arith, ◌==◌, eq_iff, is_some,
  Option-cases, Bool-cases, inl, inr, Option, Bool, false, str_eq, exists, ◌++◌, sym, ◌∙◌, subst,
}
use mathlib.Core.Option
use palworld_manager.Db.Rows.{Time, User, SessionRecord, Db}
use palworld_manager.Sessions.{
  find_user, find_session, edit_session, revoke_live, is_dead, resolve_session, revoke_if,
  revoke_user_sessions, revoke_session, issue_session, mark_seen,
}

find_session-hash :
    (h : String) (rs : List SessionRecord) {r : SessionRecord}
    → find_session h rs ≡ some r
    → r.token_hash ≡ h
unfolding find_session
find_session-hash h [] found = cc
find_session-hash h (x ∷ rs) {r} found =
    ground (arith, eq_iff x.token_hash h, find_session-hash h rs {r = r})

find_session-map :
    (g : SessionRecord → SessionRecord)
    → ((r : SessionRecord) → (g r).token_hash ≡ r.token_hash)
    → (h : String) (rs : List SessionRecord)
    → find_session h (map g rs) ≡ Option.map g (find_session h rs)
unfolding find_session
find_session-map g keeps h [] = refl
find_session-map g keeps h (r ∷ rs) = ground (arith, keeps r, find_session-map g keeps h rs)

edit-keeps :
    (r : SessionRecord) (now : Time) (x : SessionRecord)
    → (edit_session r.token_hash (revoke_live now) x).token_hash ≡ x.token_hash
edit-keeps r now x = ground arith

-- The session of the token is over: there is none, or it is revoked, or its user is gone.
abbrev IsOver : String → Db → Type 0
IsOver h db =
    (r : SessionRecord)
    → find_session h db.sessions ≡ some r
    → (user : User) → find_user r.user_id db.users ≡ some user
    → is_some r.revoked_at ≡ true

over_refused :
    (h : String) (now : Time) (db : Db) → IsOver h db → (resolve_session (some h) now db).0 ≡ none
unfolding resolve_session
over_refused h now db over = elim (Option-cases (find_session h db.sessions)) [
  | inl e ↦ ground arith
  | inr (r, e) ↦ elim (Option-cases (find_user r.user_id db.users)) [
    | inl f ↦ ground arith
    | inr (user, f) ↦ ground (arith, over r e user f)
  ]
]

refused-IsOver :
    (h : String) (now : Time) (db : Db)
    → (resolve_session (some h) now db).0 ≡ none
    → IsOver h (resolve_session (some h) now db).1
unfolding resolve_session
refused-IsOver h now db refused = elim (Option-cases (find_session h db.sessions)) [
  | inl e ↦ λ r' found' user' f'. ground arith
  | inr (r, e) ↦ elim (Option-cases (find_user r.user_id db.users)) [
    | inl f ↦ λ r' found' user' f'. ground arith
    | inr (user, f) ↦ elim (Bool-cases (is_dead now r user)) [
      | inr alive ↦ let impossible : ⊥ = ground arith in absurd impossible
      | inl dead ↦ λ r' found' user' f'. ground (
        arith,
        find_session-hash h db.sessions e,
        eq_iff r.token_hash h,
        find_session-map (edit_session r.token_hash (revoke_live now)) (λ x. edit-keeps r now x) h
            db.sessions,
      )
    ]
  ]
]

-- A change of the rows that keeps a session's token and user, and keeps it revoked.
abbrev KeepsRevoked : (SessionRecord → SessionRecord) → Type 0
KeepsRevoked g =
    (r : SessionRecord)
    → ((g r).token_hash ≡ r.token_hash)
      × ((g r).user_id ≡ r.user_id)
      × (is_some r.revoked_at ≡ true → is_some (g r).revoked_at ≡ true)

IsOver-map :
    (g : SessionRecord → SessionRecord)
    → KeepsRevoked g
    → (h : String) (db : Db) → IsOver h db
    → IsOver h (record db { sessions = map g db.sessions })
IsOver-map g keeps h db over r found user known = elim (Option-cases (find_session h db.sessions)) [
  | inl e ↦ ground (arith, find_session-map g (λ x. (keeps x).0) h db.sessions)
  | inr (r0, e) ↦
      let moved : g r0 ≡ r = ground (arith, find_session-map g (λ x. (keeps x).0) h db.sessions) in
      let owner : r0.user_id ≡ r.user_id = ground (arith, keeps r0) in
      let revoked = over r0 e user (ground arith) in ground (arith, keeps r0)
]

find_session-append :
    (h : String) (rs : List SessionRecord) (row : SessionRecord)
    → str_eq row.token_hash h ≡ false
    → find_session h (rs ++ row ∷ []) ≡ find_session h rs
unfolding find_session
find_session-append h [] row other = ground arith
find_session-append h (r ∷ rs) row other = ground (arith, find_session-append h rs row other)

-- What the code does to the table of sessions.
pub data SessionRequest : Type 0 where
  issue : User → String → String → Time → SessionRequest
  resolve : Option String → Time → SessionRequest
  revoke : ℕ → Time → SessionRequest
  revoke_user : ℕ → Time → SessionRequest

abbrev pub serve : SessionRequest → Db → Db
serve (SessionRequest.issue user token_hash csrf_token_hash now) db =
    (issue_session user token_hash csrf_token_hash now db).1
serve (SessionRequest.resolve token_hash now) db = (resolve_session token_hash now db).1
serve (SessionRequest.revoke session_id now) db = revoke_session session_id now db
serve (SessionRequest.revoke_user user_id now) db = revoke_user_sessions user_id now db

abbrev pub serve_requests : List SessionRequest → Db → Db
serve_requests [] db = db
serve_requests (q ∷ qs) db = serve_requests qs (serve q db)

-- The request issues a session for the token.
abbrev pub issues : String → SessionRequest → Bool
issues h (SessionRequest.issue user token_hash csrf_token_hash now) = str_eq token_hash h
issues h _ = false

serve-IsOver :
    (h : String) (q : SessionRequest) (db : Db)
    → issues h q ≡ false
    → IsOver h db
    → IsOver h (serve q db)
unfolding issue_session resolve_session revoke_session revoke_user_sessions
serve-IsOver h (issue u t csrf now) db other over = λ r found user known.
    over r (sym (find_session-append h db.sessions (issue_session u t csrf now db).0 other) ∙ found)
      user known
serve-IsOver h (resolve none now) db other over = over
serve-IsOver h (resolve (some t) now) db other over =
    elim (Option-cases (find_session t db.sessions)) [
      | inl e ↦
          let same : db ≡ (resolve_session (some t) now db).1 = ground arith in
          subst (IsOver h) same over
      | inr (x, e) ↦ elim (Option-cases (find_user x.user_id db.users)) [
        | inl f ↦
            let same : db ≡ (resolve_session (some t) now db).1 = ground arith in
            subst (IsOver h) same over
        | inr (user, f) ↦ elim (Bool-cases (is_dead now x user)) [
          | inl dead ↦
              let g : SessionRecord → SessionRecord = edit_session x.token_hash (revoke_live now) in
              let same : record db { sessions = map g db.sessions }
                  ≡ (resolve_session (some t) now db).1 =
                ground arith in
              subst (IsOver h) same (IsOver-map g (λ y. ground arith) h db over)
          | inr alive ↦
              let g : SessionRecord → SessionRecord = edit_session x.token_hash (mark_seen now) in
              let same : record db { sessions = map g db.sessions }
                  ≡ (resolve_session (some t) now db).1 =
                ground arith in
              subst (IsOver h) same (IsOver-map g (λ y. ground arith) h db over)
        ]
      ]
    ]
serve-IsOver h (revoke i now) db other over =
    IsOver-map (revoke_if (λ r. r.id == i) now) (λ y. ground arith) h db over
serve-IsOver h (revoke_user i now) db other over =
    IsOver-map (revoke_if (λ r. r.user_id == i) now) (λ y. ground arith) h db over

serve_requests-IsOver :
    (h : String) (qs : List SessionRequest) (db : Db)
    → exists (issues h) qs ≡ false
    → IsOver h db
    → IsOver h (serve_requests qs db)
serve_requests-IsOver h [] db other over = over
serve_requests-IsOver h (q ∷ qs) db other over =
    serve_requests-IsOver h qs (serve q db) (ground arith) (serve-IsOver h q db (ground arith) over)

-- A token that was refused stays refused: after any sequence of calls that issue, resolve or revoke
-- sessions, none of which issues a session for the same token, and while the accounts do not
-- change, `resolve_session` answers none again, at whatever time.
pub refused_stays_refused :
    (h : String) (now later : Time) (qs : List SessionRequest) (db : Db)
    → exists (issues h) qs ≡ false
    → (resolve_session (some h) now db).0 ≡ none
    → (resolve_session (some h) later (serve_requests qs (resolve_session (some h) now db).1)).0
      ≡ none
refused_stays_refused h now later qs db other refused =
    over_refused h later (serve_requests qs (resolve_session (some h) now db).1) (
      serve_requests-IsOver h qs (resolve_session (some h) now db).1 other
        (refused-IsOver h now db refused))

revoke_if-keeps :
    (user_id : ℕ) (now : Time) (x : SessionRecord)
    → (revoke_if (λ r. r.user_id == user_id) now x).token_hash ≡ x.token_hash
revoke_if-keeps user_id now x = ground arith

-- After `revoke_user_sessions` no token of that user is accepted.
pub revoked_user_is_out :
    (user_id : ℕ) (h : String) (now later : Time) (db : Db) (r : SessionRecord)
    → find_session h db.sessions ≡ some r
    → r.user_id ≡ user_id
    → (resolve_session (some h) later (revoke_user_sessions user_id now db)).0 ≡ none
unfolding revoke_user_sessions
revoked_user_is_out user_id h now later db r found owned =
    over_refused h later (revoke_user_sessions user_id now db) (λ r' found' user' f'. ground (
      arith,
      find_session-map (revoke_if (λ x. x.user_id == user_id) now)
          (λ x. revoke_if-keeps user_id now x) h db.sessions,
    ))

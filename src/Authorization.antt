-- ===== src/Authorization.antt =====
-- app/auth/authorization.py and app/auth/middleware.py: which request is served. The patterns of
-- paths with a job's id are arguments.
use text.Mathlib.Text.{starts_with}
use mathlib.Core.Path.{ap}
use text.Mathlib.TextEquality.{eq_iff}
use palworld_manager.Prelude.{
  inl, inr, ◌≡◌, ◌≢◌, ◌⊎◌, ◌↔◌, Bool, true, false, not, ◌&&◌, ◌||◌, String, List, [], ◌∷◌, Option,
  none, some, exists, str_eq, Bool-cases, if◌then◌else◌, arith,
}
use palworld_manager.Db.Enums.{UserRole}
use palworld_manager.Db.Rows.{Time, Db}
use palworld_manager.Sessions.{SessionPrincipal, resolve_session}

abbrev user_get_paths : List String
user_get_paths =
    "/" ∷ "/account" ∷ "/backups/drive/status" ∷ "/dashboard/active-job" ∷ "/dashboard/metrics"
    ∷ "/dashboard/palworld-health" ∷ "/dashboard/worker-health" ∷ []

abbrev user_post_paths : List String
user_post_paths =
    "/account/password" ∷ "/dashboard/lifecycle/START" ∷ "/dashboard/lifecycle/RESTART"
    ∷ "/dashboard/shutdown" ∷ "/logout" ∷ []

-- `fullmatch` with one of the patterns of GET and of POST requests.
pub record PathPatterns : Type 0 where
  pub is_user_get : String → Bool
  pub is_user_post : String → Bool

abbrev has_admin_role : UserRole → Bool
has_admin_role UserRole.admin = true
has_admin_role UserRole.user = false

unfoldable pub is_reading : String → Bool
is_reading method = str_eq method "GET" || str_eq method "HEAD"

unfoldable pub one_of : String → List String → Bool
one_of path paths = exists (str_eq path) paths

unfoldable pub request_is_authorized : PathPatterns → SessionPrincipal → String → String → Bool
request_is_authorized patterns principal method path =
    if has_admin_role principal.role
    then true
    else if is_reading method
    then one_of path user_get_paths || patterns.is_user_get path
    else if str_eq method "POST"
    then one_of path user_post_paths || patterns.is_user_post path
    else false

unfoldable pub password_change_path_is_allowed : String → String → Bool
password_change_path_is_allowed method path =
    (is_reading method && str_eq path "/account")
    || (str_eq method "POST" && (str_eq path "/account/password" || str_eq path "/logout"))

-- app/auth/middleware.py
unfoldable pub is_public_path : String → Bool
is_public_path path = one_of path ("/health" ∷ "/login" ∷ []) || starts_with path "/static/"

abbrev is_safe_method : String → Bool
is_safe_method method = one_of method ("GET" ∷ "HEAD" ∷ "OPTIONS" ∷ [])

-- The next handler is called, or a redirection, or a refusal.
pub data Answer : Type 0 where
  call_next redirect_to_login redirect_to_account : Answer
  unauthenticated must_change_password denied : Answer

unfoldable pub dispatch_principal :
    PathPatterns → Option SessionPrincipal → String → String → Answer
unfolding request_is_authorized password_change_path_is_allowed
dispatch_principal patterns none method path =
    if is_safe_method method then Answer.redirect_to_login else Answer.unauthenticated
dispatch_principal patterns (some principal) method path =
    if principal.password_change_required && not (password_change_path_is_allowed method path)
    then (if is_safe_method method then Answer.redirect_to_account else Answer.must_change_password)
    else if not (request_is_authorized patterns principal method path)
    then Answer.denied
    else Answer.call_next

-- `AuthenticationMiddleware.dispatch`, on the hash of the cookie.
unfoldable pub dispatch : PathPatterns → Option String → String → String → Time → Db → Answer × Db
unfolding dispatch_principal is_public_path
dispatch patterns token_hash method path now db =
    if is_public_path path
    then (Answer.call_next, db)
    else (let (principal, resolved) = resolve_session token_hash now db in
        (dispatch_principal patterns principal method path, resolved))

at_text :
    (test : String → Bool) (s literal : String) → str_eq s literal ≡ true → test s ≡ test literal
at_text test s literal h = ap test ((eq_iff s literal).0 h)

post_not_reading : (method : String) → str_eq method "POST" ≡ true → is_reading method ≡ false
unfolding is_reading
post_not_reading method h = at_text is_reading method "POST" h

account-read : (path : String) → str_eq path "/account" ≡ true → one_of path user_get_paths ≡ true
unfolding one_of
account-read path h = at_text (λ p. one_of p user_get_paths) path "/account" h

password-posted :
    (path : String) → str_eq path "/account/password" ≡ true → one_of path user_post_paths ≡ true
unfolding one_of
password-posted path h = at_text (λ p. one_of p user_post_paths) path "/account/password" h

logout-posted : (path : String) → str_eq path "/logout" ≡ true → one_of path user_post_paths ≡ true
unfolding one_of
logout-posted path h = at_text (λ p. one_of p user_post_paths) path "/logout" h

-- What a temporary password may be used for is open to every role.
allowed-authorized :
    (patterns : PathPatterns) (principal : SessionPrincipal) (method path : String)
    → password_change_path_is_allowed method path ≡ true
    → request_is_authorized patterns principal method path ≡ true
unfolding request_is_authorized password_change_path_is_allowed
allowed-authorized patterns principal method path h =
    let posted = post_not_reading method in
    let read = account-read path in
    let changed = password-posted path in
    let logged_out = logout-posted path in
    elim (Bool-cases (str_eq method "POST")) [
      | inl is_post ↦ ground arith
      | inr other ↦ ground arith
    ]

dispatch_principal-Temporary :
    (patterns : PathPatterns) (principal : SessionPrincipal) (method path : String)
    → principal.password_change_required ≡ true
    → (dispatch_principal patterns (some principal) method path ≡ Answer.call_next)
      ↔ (password_change_path_is_allowed method path ≡ true)
unfolding dispatch_principal
dispatch_principal-Temporary patterns principal method path required =
    let authorized = allowed-authorized patterns principal method path in
    elim (Bool-cases (password_change_path_is_allowed method path)) [
      | inl allowed ↦ (λ h. allowed, λ h. let granted = authorized h in ground arith)
      | inr refused ↦ (λ h. ground arith, λ h. ground arith)
    ]

-- To show the account, to change the password, or to log out.
abbrev pub IsAboutPassword : String → String → Type 0
IsAboutPassword method path =
    (((method ≡ "GET") ⊎ (method ≡ "HEAD")) × (path ≡ "/account"))
    ⊎ ((method ≡ "POST") × ((path ≡ "/account/password") ⊎ (path ≡ "/logout")))

allowed-IsAboutPassword :
    (method path : String)
    → (password_change_path_is_allowed method path ≡ true) ↔ IsAboutPassword method path
unfolding password_change_path_is_allowed is_reading
allowed-IsAboutPassword method path = (
  λ h. ground (
    arith,
    eq_iff method "GET",
    eq_iff method "HEAD",
    eq_iff method "POST",
    eq_iff path "/account",
    eq_iff path "/account/password",
    eq_iff path "/logout",
  ),
  λ h. ground (
    arith,
    eq_iff method "GET",
    eq_iff method "HEAD",
    eq_iff method "POST",
    eq_iff path "/account",
    eq_iff path "/account/password",
    eq_iff path "/logout",
  ),
)

not_public :
    (path : String)
    → path ≢ "/health"
    → path ≢ "/login"
    → starts_with path "/static/" ≡ false
    → is_public_path path ≡ false
unfolding is_public_path one_of
not_public path health login static = ground (arith, eq_iff path "/health", eq_iff path "/login")

-- While a live session has a temporary password, a request for a path other than /health, /login
-- and those under /static/ is passed on exactly if it is a GET or HEAD of /account, or a POST to
-- /account/password or to /logout, whatever the role is.
pub dispatch-temporary_password :
    (patterns : PathPatterns) (token_hash : Option String) (method path : String) (now : Time)
    (db : Db) (principal : SessionPrincipal)
    → path ≢ "/health"
    → path ≢ "/login"
    → starts_with path "/static/" ≡ false
    → (resolve_session token_hash now db).0 ≡ some principal
    → principal.password_change_required ≡ true
    → ((dispatch patterns token_hash method path now db).0 ≡ Answer.call_next)
      ↔ IsAboutPassword method path
unfolding dispatch
dispatch-temporary_password patterns token_hash method path now db principal h l s live required =
    let private = not_public path h l s in
    let temporary = dispatch_principal-Temporary patterns principal method path required in
    let meaning = allowed-IsAboutPassword method path in
    (
      λ passed. meaning.0 (temporary.0 (ground arith)),
      λ about. let served = temporary.1 (meaning.1 about) in ground arith,
    )

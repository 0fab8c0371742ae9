-- ===== src/Api/Accounts.antt =====
-- apps/api: core/security.py, dependencies/auth.py and modules/auth, with the columns of user.py that
-- they use. The password hasher and the JWT library are parameters.
pub mod Login
pub mod Organizations
use forge_ai_autonomous_soft.Common.{
  ℕ, ◌+◌, ◌*◌, Bool, true, false, not, eqb, ◌==◌, Option, none, some, List, [], ◌∷◌, ◌++◌, map,
  find, Text, text_eq, codes, if◌then◌else◌,
}
use forge_ai_autonomous_soft.Common.Outcome.{Outcome, returned, raised, ensure, ◌>>=◌, ◌>>◌}
use forge_ai_autonomous_soft.Engine.Session.Actions.{by_id, update}

pub record User : Type 0 where
  pub id : ℕ
  pub email : Text
  pub username : Text
  pub hashed_password : Option Text
  pub full_name : Option Text
  pub is_active : Bool
  pub last_login_at : Option ℕ

pub data AuthError : Type 0 where
  email_already_registered username_already_taken invalid_credentials : AuthError
  -- `UnauthorizedError` with its text.
  unauthorized : (reason : Text) → AuthError
  -- What argon2 raises besides `VerifyMismatchError`, and the JWT library at encoding.
  library_error : AuthError

pub data Verified : Type 0 where
  matching mismatch hash_error : Verified

-- The claims that the program hands to the library, with datetimes in microseconds.
pub record Claims : Type 0 where
  pub sub : Text
  pub iat : ℕ
  pub exp : ℕ
  pub token_type : Text

-- What the program reads of a decoded payload; `iat` and `exp` are checked by the library.
pub record Payload : Type 0 where
  pub sub : Option Text
  pub token_type : Option Text

pub record Settings : Type 0 where
  pub jwt_secret_key : Text
  pub jwt_algorithm : Text
  pub jwt_access_token_expire_minutes : ℕ

-- argon2 at its n-th salt; PyJWT, which is told the time and at whose exceptions there is `none`; `str` of an id and `uuid.UUID` of a text.
pub record Libraries : Type 0 where
  pub hash : ℕ → Text → Text
  pub verify : (hashed password : Text) → Verified
  pub encode : Claims → (key algorithm : Text) → Option Text
  pub decode : ℕ → (token key algorithm : Text) → Option Payload
  pub id_text : ℕ → Text
  pub parse_id : Text → Option ℕ

pub record RegisterRequest : Type 0 where
  pub email : Text
  pub username : Text
  pub password : Text
  pub full_name : Option Text

pub record TokenResponse : Type 0 where
  pub access_token : Text
  pub expires_in_minutes : ℕ

-- The tables, the number of the next salt, and the next id of a row.
pub record Accounts : Type 0 where
  pub users : List User
  pub preferences_of : List ℕ
  pub salts : ℕ
  pub next_id : ℕ

abbrev pub user_at : ℕ → List User → Option User
user_at i users = by_id (λ (u : User). u.id) i users

-- `get_by_email` and `get_by_username`: the columns are unique.
unfoldable pub get_by_email : Text → List User → Option User
get_by_email email users = find (λ (u : User). u.email == email) users

unfoldable pub get_by_username : Text → List User → Option User
get_by_username username users = find (λ (u : User). u.username == username) users

abbrev pub is_missing : Option User → Bool
is_missing none = true
is_missing (some u) = false

-- A datetime is in microseconds.
abbrev pub minutes : ℕ → ℕ
minutes n = n * 60000000

-- The claims that the program puts into a token.
abbrev pub issued : Libraries → ℕ → ℕ → ℕ → Claims
issued libraries user_id iat exp = record {
  sub = libraries.id_text user_id;
  iat = iat;
  exp = exp;
  token_type = codes "access";
}

module _ (libraries : Libraries) (settings : Settings) where
  abbrev pub is_matching : Verified → Outcome AuthError Bool
  is_matching matching = returned true
  is_matching mismatch = returned false
  is_matching hash_error = raised library_error

  unfoldable pub verify_password : Text → Text → Outcome AuthError Bool
  verify_password password hashed_password = is_matching (libraries.verify hashed_password password)

  abbrev pub encoded : Option Text → Outcome AuthError Text
  encoded none = raised library_error
  encoded (some token) = returned token

  unfoldable pub create_access_token : ℕ → ℕ → Outcome AuthError Text
  create_access_token now user_id = encoded (
      libraries.encode
        (issued libraries user_id now (now + minutes settings.jwt_access_token_expire_minutes))
        settings.jwt_secret_key settings.jwt_algorithm)

  abbrev pub is_access : Option Text → Bool
  is_access none = false
  is_access (some t) = t == codes "access"

  abbrev pub id_of_claim : Option Text → Option ℕ
  id_of_claim none = none
  id_of_claim (some t) = libraries.parse_id t

  abbrev pub id_of_payload : Option Payload → Option ℕ
  id_of_payload none = none
  id_of_payload (some payload) =
      if is_access payload.token_type then id_of_claim payload.sub else none

  -- `decode_access_token`: `none` is `InvalidTokenError`, whose text nobody reads.
  unfoldable pub decode_access_token : ℕ → Text → Option ℕ
  decode_access_token now token =
      id_of_payload (libraries.decode now token settings.jwt_secret_key settings.jwt_algorithm)

  abbrev pub invalid_token : AuthError
  invalid_token = unauthorized (codes "Invalid or expired token.")

  abbrev pub active_user : Option User → Outcome AuthError User
  active_user none = raised invalid_token
  active_user (some u) = if not u.is_active then raised invalid_token else returned u

  abbrev pub user_of_id : List User → Option ℕ → Outcome AuthError User
  user_of_id users none = raised invalid_token
  user_of_id users (some i) = active_user (user_at i users)

  -- `get_current_user`
  unfoldable pub get_current_user : ℕ → Option Text → List User → Outcome AuthError User
  unfolding decode_access_token
  get_current_user now none users = raised (unauthorized (codes "Missing bearer token."))
  get_current_user now (some token) users = user_of_id users (decode_access_token now token)

  abbrev pub new_user : RegisterRequest → ℕ → ℕ → User
  new_user request i salt = record {
    id = i;
    email = request.email;
    username = request.username;
    hashed_password = some (libraries.hash salt request.password);
    full_name = request.full_name;
    is_active = true;
    last_login_at = none;
  }

  -- `UserRepository.create`
  unfoldable pub create_user : RegisterRequest → Accounts → Accounts
  create_user request accounts = record {
    users = accounts.users ++ new_user request accounts.next_id accounts.salts ∷ [];
    preferences_of = accounts.preferences_of ++ accounts.next_id ∷ [];
    salts = accounts.salts + 1;
    next_id = accounts.next_id + 1;
  }

  -- `AuthService.register`, with the user's id.
  unfoldable pub register_user : RegisterRequest → Accounts → Outcome AuthError (ℕ × Accounts)
  unfolding get_by_email get_by_username create_user
  register_user request accounts = do
    ensure (is_missing (get_by_email request.email accounts.users)) email_already_registered
    ensure (is_missing (get_by_username request.username accounts.users)) username_already_taken
    returned (accounts.next_id, create_user request accounts)

  abbrev pub touched : ℕ → User → User
  touched now u = record u { last_login_at = some now }

  abbrev pub signed_in : ℕ → Text → User → Accounts → TokenResponse × Accounts
  signed_in at token u accounts = (
    record { access_token = token; expires_in_minutes = settings.jwt_access_token_expire_minutes },
    record accounts { users = update (λ (v : User). v.id) u.id (touched at) accounts.users },
  )

  abbrev pub with_password :
      ℕ → ℕ → Text → User → Option Text → Accounts → Outcome AuthError (TokenResponse × Accounts)
  with_password at now password u none accounts = raised invalid_credentials
  with_password at now password u (some hashed) accounts = do
    is_right ← verify_password password hashed
    ensure is_right invalid_credentials
    token ← create_access_token now u.id
    returned (signed_in at token u accounts)

  abbrev pub with_user :
      ℕ → ℕ → Text → Option User → Accounts → Outcome AuthError (TokenResponse × Accounts)
  with_user at now password none accounts = raised invalid_credentials
  with_user at now password (some u) accounts =
      with_password at now password u u.hashed_password accounts

  -- `AuthService.login` (the tables after an exception are not shown), with the clock's reading for the row, and the one for the token.
  unfoldable pub login :
      ℕ → ℕ → Text → Text → Accounts → Outcome AuthError (TokenResponse × Accounts)
  unfolding get_by_email verify_password create_access_token
  login at now email password accounts =
      with_user at now password (get_by_email email accounts.users) accounts

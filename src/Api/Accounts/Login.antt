-- ===== src/Api/Accounts/Login.antt =====
-- A registered user can log in, and the token says who it is.
use forge_ai_autonomous_soft.Common.{
  ℕ, ◌+◌, ◌*◌, ◌<◌, ◌≤◌, elem, codes, Bool, true, eqb_iff, ◌==◌, Option, none, some, List, [], ◌∷◌,
  ◌++◌, find, Text, text_eq, ◌≡◌, refl, ap, sym, ◌∙◌, subst, arith,
}
use Prim.Native.Nat.{◌/◌}
use forge_ai_autonomous_soft.Common.Outcome.{returned, ensure, ◌>>=◌, ◌>>◌, returned-bind}
use forge_ai_autonomous_soft.Engine.Session.Actions.{update}
use forge_ai_autonomous_soft.Api.Accounts.{
  User, AuthError, email_already_registered, invalid_credentials, matching, Settings, encoded,
  issued, Libraries, RegisterRequest, TokenResponse, Accounts, user_at, get_by_email,
  get_by_username, is_missing, minutes, verify_password, is_matching, create_access_token,
  id_of_payload, decode_access_token, user_of_id, active_user, username_already_taken,
  get_current_user, new_user, create_user, register_user, touched, signed_in, with_user, login,
}

find-append :
    {A : Type 0} (p : A → Bool) (xs : List A) (a : A)
    → find p xs ≡ none
    → p a ≡ true
    → find p (xs ++ a ∷ []) ≡ some a
find-append p [] a h k = ground (arith, k)
find-append p (x ∷ xs) a h k = ground (arith, h, k, find-append p xs a)

user_at-update :
    (i : ℕ) (f : User → User) (users : List User) (u : User)
    → user_at i users ≡ none
    → u.id ≡ i
    → (f u).id ≡ i
    → user_at i (update (λ (v : User). v.id) i f (users ++ u ∷ [])) ≡ some (f u)
user_at-update i f [] u h e k = ground (arith, e, k, eqb_iff u.id i, eqb_iff (f u).id i)
user_at-update i f (v ∷ users) u h e k =
    ground (arith, h, eqb_iff v.id i, user_at-update i f users u, e, k)

-- PyJWT writes a datetime as whole seconds, and compares them with the exact time.
abbrev pub whole_seconds : ℕ → ℕ
whole_seconds t = t / 1000000 * 1000000

-- The algorithms that sign and verify with the same secret.
abbrev pub is_hmac : Text → Bool
is_hmac algorithm = elem algorithm (codes "HS256" ∷ codes "HS384" ∷ codes "HS512" ∷ [])

-- What the program relies on of the libraries: a password matches its hash; a token that the
-- program has signed with a secret decodes to its claims under the same secret from the second of `iat` on and before the
-- second of `exp`; and an id is read back from its text.
pub record IsReliable (libraries : Libraries) : Type 0 where
  pub verifies :
      (salt : ℕ) (password : Text)
      → libraries.verify (libraries.hash salt password) password ≡ matching
  pub decodes :
      (now i iat exp : ℕ) (key algorithm token : Text)
      → is_hmac algorithm ≡ true
      → libraries.encode (issued libraries i iat exp) key algorithm ≡ some token
      → whole_seconds iat ≤ now
      → now < whole_seconds exp
      → libraries.decode now token key algorithm
        ≡ some (record { sub = some (libraries.id_text i); token_type = some (codes "access") })
  pub parses : (i : ℕ) → libraries.parse_id (libraries.id_text i) ≡ some i

-- The library signs the claims of this user and time with the secret of the settings.
pub record CanSign (libraries : Libraries) (settings : Settings) (now user_id : ℕ) : Type 0 where
  pub hmac : is_hmac settings.jwt_algorithm ≡ true
  pub token : Text
  pub signs :
      libraries.encode
        (issued libraries user_id now (now + minutes settings.jwt_access_token_expire_minutes))
        settings.jwt_secret_key
        settings.jwt_algorithm
      ≡ some token

module _ (libraries : Libraries) (settings : Settings) where
  token_is_its_user :
      (now later i : ℕ)
      → IsReliable libraries
      → (can : CanSign libraries settings now i) → now ≤ later
      → later < whole_seconds (now + minutes settings.jwt_access_token_expire_minutes)
      → decode_access_token libraries settings later can.token ≡ some i
  unfolding decode_access_token
  token_is_its_user now later i reliable can after early =
      ap (id_of_payload libraries settings) (
        reliable.decodes later i now (now + minutes settings.jwt_access_token_expire_minutes)
          settings.jwt_secret_key settings.jwt_algorithm can.token can.hmac can.signs (omega arith)
          early)
      ∙ reliable.parses i

  can_sign :
      (now i : ℕ) (can : CanSign libraries settings now i)
      → create_access_token libraries settings now i ≡ returned can.token
  unfolding create_access_token
  can_sign now i can = ap (encoded libraries settings) can.signs

  free_email : (o : Option User) (e : AuthError) → ensure (is_missing o) e ≡ returned tt → o ≡ none
  free_email none e h = refl
  free_email (some u) e h = absurd (cc)

  login-new_user :
      (request : RegisterRequest) (at now : ℕ) (token : Text) (accounts : Accounts)
      → IsReliable libraries
      → create_access_token libraries settings now accounts.next_id ≡ returned token
      → get_by_email request.email accounts.users ≡ none
      → login libraries settings at now request.email request.password
          (create_user libraries settings request accounts)
        ≡ returned (
            signed_in libraries settings at token
              (new_user libraries settings request accounts.next_id accounts.salts)
              (create_user libraries settings request accounts))
  unfolding login get_by_email verify_password create_user
  login-new_user request at now token accounts reliable signs free =
      let u = new_user libraries settings request accounts.next_id accounts.salts in
      let after = create_user libraries settings request accounts in
      ap (λ o. with_user libraries settings at now request.password o after)
        (find-append (λ (v : User). v.email == request.email) accounts.users u free
          ((text_eq.beq_iff request.email request.email).1 refl))
      ∙ ap
          (λ v. is_matching libraries settings v >>= λ b.
            ensure b invalid_credentials
            >> (create_access_token libraries settings now u.id >>= λ t.
                returned (signed_in libraries settings at t u after)))
          (reliable.verifies accounts.salts request.password)
      ∙ ap (λ o. o >>= λ t. returned (signed_in libraries settings at t u after)) signs

  current-new_user :
      (request : RegisterRequest) (at later : ℕ) (token : Text) (accounts : Accounts)
      → user_at accounts.next_id accounts.users ≡ none
      → decode_access_token libraries settings later token ≡ some accounts.next_id
      → let u = new_user libraries settings request accounts.next_id accounts.salts in
        let done =
          signed_in libraries settings at token u
            (create_user libraries settings request accounts) in
        get_current_user libraries settings later (some done.0.access_token) done.1.users
        ≡ returned (touched libraries settings at u)
  unfolding get_current_user create_user
  current-new_user request at later token accounts fresh decoded =
      let u = new_user libraries settings request accounts.next_id accounts.salts in
      let users =
        update (λ (v : User). v.id) u.id (touched libraries settings at)
          (accounts.users ++ u ∷ []) in
      ap (user_of_id libraries settings users) decoded
      ∙ ap (active_user libraries settings) (
          user_at-update accounts.next_id (touched libraries settings at) accounts.users u fresh
            refl refl)

  -- Where the library signs the user's claims at the login: someone who registers, under an id that no user
  -- has, can log in with the email and the password of the registration, and from then on until the
  -- whole second in which the token expires it is accepted as that user's, who is active.
  pub register-login :
      (request : RegisterRequest) (i at now later : ℕ) (accounts accounts' : Accounts)
      → IsReliable libraries
      → CanSign libraries settings now i
      → user_at accounts.next_id accounts.users ≡ none
      → register_user libraries settings request accounts ≡ returned (i, accounts')
      → now ≤ later
      → later < whole_seconds (now + minutes settings.jwt_access_token_expire_minutes)
      → (response : TokenResponse) × (after : Accounts) × (login libraries settings at now
            request.email request.password accounts'
          ≡ returned (response, after))
        × (get_current_user libraries settings later (some response.access_token) after.users
            ≡ returned (
                touched libraries settings at
                  (new_user libraries settings request i accounts.salts)))
  unfolding register_user
  register-login request i at now later accounts accounts' reliable can fresh h after early =
      let free =
        returned-bind
          (ensure (is_missing (get_by_email request.email accounts.users)) email_already_registered)
          _ _ h in
      let named =
        returned-bind
          (ensure (is_missing (get_by_username request.username accounts.users))
            username_already_taken)
          _ _ free.2 in
      let same_id : accounts.next_id ≡ i = cc in
      let same : create_user libraries settings request accounts ≡ accounts' = cc in
      let no_email =
        free_email (get_by_email request.email accounts.users) email_already_registered free.1 in
      let signer = subst (CanSign libraries settings now) (sym same_id) can in
      let token = signer.token in
      let signs = can_sign now accounts.next_id signer in
      let decoded = token_is_its_user now later accounts.next_id reliable signer after early in
      let done =
        signed_in libraries settings at token
          (new_user libraries settings request accounts.next_id accounts.salts)
          (create_user libraries settings request accounts) in
      (
        done.0,
        done.1,
        subst
            (λ a. login libraries settings at now request.email request.password a ≡ returned done)
            same (login-new_user request at now token accounts reliable signs no_email),
        subst
            (λ j.
              get_current_user libraries settings later (some done.0.access_token) done.1.users
              ≡ returned (
                  touched libraries settings at
                    (new_user libraries settings request j accounts.salts)))
            same_id (current-new_user request at later token accounts fresh decoded),
      )

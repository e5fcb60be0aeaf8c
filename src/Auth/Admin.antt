-- ===== src/Auth/Admin.antt =====
-- `AdminAuth`, `AdminPrincipal`, `GoogleAdminAuth`, `bearer_token` and the JSON readers of
-- crates/aichan-server/src/lib.rs. The answer of Google's tokeninfo service is a parameter.
use ai_channel.Prelude.{
  ℕ, ◌+◌, ◌-◌, ◌*◌, Bool, true, false, not, ◌&&◌, ◌||◌, Option, none, some, List, [], ◌∷◌, leb, ltb,
  ◌==◌, if◌then◌else◌, any,
}
use ai_channel.Prelude.Text.{Text, text, text_eq, trim, is_empty, split_once, to_ascii_lowercase}
use ai_channel.Prelude.Int.{ℤ, pos, negsuc, at_most}
use ai_channel.Prelude.Result.{Result, ok, err, ◌>>=◌, ◌>>◌, ensure, context}
use ai_channel.Json.{pos_int, neg_int, Value, bool, number, string, value_get, as_str}
use ai_channel.Http.{HttpRequest, header}
use ai_channel.Protocol.External.{Crypto}
use ai_channel.Digest.{principal_hash}

pub record AdminPrincipal : Type 0 where
  pub principal : Text
  pub principal_hash : Text
  pub auth_provider : Text

pub record GoogleAdminAuth : Type 0 where
  pub audience : Text
  pub principals : List Text

pub data AdminAuth : Type 0 where
  disabled : AdminAuth
  google_token_info : GoogleAdminAuth → AdminAuth
  static_test : Text → Text → AdminAuth

-- `bearer_token`, after the header is found and trimmed
abbrev token_of : Option (Text × Text) → Option Text
token_of none = none
token_of (some (scheme, token)) =
    if not (text_eq (to_ascii_lowercase scheme) (text "bearer"))
    then none
    else if is_empty (trim token)
    then none
    else some (trim token)

abbrev bearer_of : Option Text → Option Text
bearer_of none = none
bearer_of (some value) = token_of (split_once b' ' (trim value))

unfoldable pub bearer_token : HttpRequest → Option Text
bearer_token request = bearer_of (header request (text "Authorization"))

abbrev string_of : Option Value → Option Text
string_of none = none
string_of (some v) = as_str v

unfoldable pub json_string : Value → Text → Option Text
json_string value key = string_of (value_get key value)

i64_digits : ℕ → Text → Option ℕ
i64_digits acc [] = some acc
i64_digits acc (c ∷ s) =
    if leb b'0' c && leb c b'9'
    then (if leb acc 9223372036854775808 then i64_digits (acc * 10 + (c - 48)) s else none)
    else none

abbrev positive : Option ℕ → Option ℤ
positive none = none
positive (some n) = if ltb n 9223372036854775808 then some (pos n) else none

abbrev negative : Option ℕ → Option ℤ
negative none = none
negative (some n) =
    if n == 0
    then some (pos 0)
    else if leb n 9223372036854775808
    then some (negsuc (n - 1))
    else none

-- `str::parse::<i64>`
unfoldable pub parse_i64 : Text → Option ℤ
unfolding i64_digits
parse_i64 [] = none
parse_i64 (c ∷ []) = if c == b'+' || c == b'-' then none else positive (i64_digits 0 (c ∷ []))
parse_i64 (c ∷ d ∷ s) =
    if c == b'-'
    then negative (i64_digits 0 (d ∷ s))
    else if c == b'+'
    then positive (i64_digits 0 (d ∷ s))
    else positive (i64_digits 0 (c ∷ d ∷ s))

-- `Value::as_i64`, or the parsed text; `neg_int n` is -(n + 1)
abbrev i64_of : Option Value → Option ℤ
i64_of (some (number (pos_int n))) = if ltb n 9223372036854775808 then some (pos n) else none
i64_of (some (number (neg_int n))) = some (negsuc n)
i64_of (some (string s)) = parse_i64 s
i64_of _ = none

unfoldable pub json_i64 : Value → Text → Option ℤ
json_i64 value key = i64_of (value_get key value)

abbrev bool_of : Option Value → Option Bool
bool_of (some (bool b)) = some b
bool_of (some (string s)) =
    if text_eq s (text "true")
    then some true
    else if text_eq s (text "false")
    then some false
    else none
bool_of _ = none

unfoldable pub json_bool : Value → Text → Option Bool
json_bool value key = bool_of (value_get key value)

abbrev is_true : Option Bool → Bool
is_true (some b) = b
is_true none = false

-- `AdminPrincipal::new`
unfoldable pub new_principal : Crypto → Text → Text → AdminPrincipal
new_principal crypto principal auth_provider = record {
  principal = principal;
  principal_hash = principal_hash crypto principal;
  auth_provider = auth_provider;
}

-- The principal named by the service's answer: a verified e-mail address, or else the subject.
unfoldable pub principal_of : Value → Option Text → Result Text
principal_of response (some email) = do
  ensure (is_true (json_bool response (text "email_verified")))
      (text "admin token email is not verified")
  ok email
principal_of response none =
    context (json_string response (text "sub")) (text "tokeninfo response missing principal")

module _ (crypto : Crypto) where
  -- `GoogleAdminAuth::authenticate`, from the answer of the service for this token; `now` is the
  -- Unix time in seconds
  unfoldable pub authenticate_google : GoogleAdminAuth → Result Value → ℕ → Result AdminPrincipal
  authenticate_google config answer now = do
    response ← answer
    issuer ← context (json_string response (text "iss")) (text "tokeninfo response missing iss")
    ensure
        (text_eq issuer (text "accounts.google.com")
          || text_eq issuer (text "https://accounts.google.com"))
        (text "invalid admin token issuer")
    audience ← context (json_string response (text "aud")) (text "tokeninfo response missing aud")
    ensure (text_eq audience config.audience) (text "invalid admin token audience")
    exp ← context (json_i64 response (text "exp")) (text "tokeninfo response missing exp")
    ensure (not (at_most exp now)) (text "expired admin token")
    principal ← principal_of response (json_string response (text "email"))
    ensure (any (λ allowed. text_eq allowed principal) config.principals)
        (text "admin principal is not allowlisted")
    ok (new_principal crypto principal (text "google_id_token"))

  -- the part of `AdminAuth::authenticate` that has a token; `tokeninfo` asks the service
  unfoldable pub authenticate_token :
      AdminAuth → (Text → Result Value) → ℕ → Text → Result AdminPrincipal
  authenticate_token disabled tokeninfo now token = err (text "admin moderation is not configured")
  authenticate_token (static_test expected principal) tokeninfo now token = do
    ensure (text_eq token expected) (text "invalid admin token")
    ok (new_principal crypto principal (text "static_test"))
  authenticate_token (google_token_info config) tokeninfo now token =
      authenticate_google config (tokeninfo token) now

  -- `AdminAuth::authenticate`
  unfoldable pub authenticate :
      AdminAuth → (Text → Result Value) → ℕ → HttpRequest → Result AdminPrincipal
  authenticate auth tokeninfo now request = do
    token ← context (bearer_token request) (text "missing Authorization bearer token")
    authenticate_token auth tokeninfo now token

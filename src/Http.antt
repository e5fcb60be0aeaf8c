-- ===== src/Http.antt =====
-- `HttpRequest`, `HttpResponse`, the response builders, query parsing and the routing helpers of
-- crates/aichan-server/src/lib.rs.
use ai_channel.Prelude.{
  ℕ, zero, suc, Bool, true, not, ◌&&◌, Option, none, some, List, [], ◌∷◌, ◌++◌, if◌then◌else◌,
  length,
}
use ai_channel.Prelude.Text.{
  Text, text, text_eq, trim, is_empty, split, split_once, to_ascii_lowercase, to_ascii_uppercase,
  strip_prefix, strip_suffix, contains_char, decimal,
}
use ai_channel.Prelude.Result.{Result, context}
use ai_channel.Json.{Value, bool, string, json_object}
use ai_channel.Protocol.External.{Codec}

pub record HttpRequest : Type 0 where
  pub method : Text
  pub path_and_query : Text
  pub headers : List (Text × Text)
  pub body : List ℕ

pub record HttpResponse : Type 0 where
  pub status : ℕ
  pub headers : List (Text × Text)
  pub body : List ℕ

-- `BTreeMap::insert`, with the order of the keys left out of the model
unfoldable pub insert : Text → Text → List (Text × Text) → List (Text × Text)
insert k v [] = (k, v) ∷ []
insert k v ((j, w) ∷ entries) =
    if text_eq j k then (j, v) ∷ entries else (j, w) ∷ insert k v entries

-- `BTreeMap::get`
unfoldable pub get : Text → List (Text × Text) → Option Text
get k [] = none
get k ((j, v) ∷ entries) = if text_eq j k then some v else get k entries

unfoldable pub normalize_header_name : Text → Text
normalize_header_name name = to_ascii_lowercase name

-- `HttpRequest::new`
unfoldable pub new_request : Text → Text → HttpRequest
new_request method path_and_query = record {
  method = to_ascii_uppercase method;
  path_and_query = path_and_query;
  headers = [];
  body = [];
}

unfoldable pub with_header : Text → Text → HttpRequest → HttpRequest
with_header name value request = record request {
  headers = insert (normalize_header_name name) value request.headers;
}

unfoldable pub with_json_body : List ℕ → HttpRequest → HttpRequest
with_json_body body request = record request {
  headers =
      insert (text "content-length") (decimal (length body))
        (insert (text "content-type") (text "application/json") request.headers);
  body = body;
}

unfoldable pub header : HttpRequest → Text → Option Text
header request name = get (normalize_header_name name) request.headers

abbrev first_or : Text → Option (Text × Text) → Text
first_or whole none = whole
first_or whole (some (a, b)) = a

abbrev second_part : Option (Text × Text) → Option Text
second_part none = none
second_part (some (a, b)) = some b

unfoldable pub path : HttpRequest → Text
path request = first_or request.path_and_query (split_once b'?' request.path_and_query)

unfoldable pub query : HttpRequest → Option Text
query request = second_part (split_once b'?' request.path_and_query)

abbrev head_part : List Text → Text
head_part [] = []
head_part (part ∷ parts) = part

-- `.map(str::trim).filter(|value| !value.is_empty())` of a header's first part
abbrev forwarded_for : Option Text → Option Text
forwarded_for none = none
forwarded_for (some value) =
    let client = trim (head_part (split b',' value)) in
    if is_empty client then none else some client

abbrev pub or_else : Option Text → Option Text → Option Text
or_else (some a) other = some a
or_else none other = other

abbrev pub unwrap_or {ℓ} : {A : Type ℓ} → A → Option A → A
unwrap_or d none = d
unwrap_or d (some a) = a

unfoldable pub client_key : HttpRequest → Text
client_key request = unwrap_or (text "unknown") (
    or_else (forwarded_for (header request (text "X-Forwarded-For")))
      (header request (text "X-Real-IP")))

unfoldable pub required_header : HttpRequest → Text → Result Text
required_header request name =
    context (header request name) (text "missing " ++ name ++ text " header")

-- `response`
unfoldable pub plain_response : ℕ → Text → List ℕ → HttpResponse
plain_response status content_type body = record {
  status = status;
  headers = (text "Content-Type", content_type) ∷ [];
  body = body;
}

module _ (codec : Codec) where
  unfoldable pub json_response : ℕ → Value → HttpResponse
  unfolding plain_response
  json_response status value =
      plain_response status (text "application/json; charset=utf-8") (codec.to_vec value)

  unfoldable pub error_response : ℕ → Text → Text → Bool → HttpResponse
  unfolding json_response
  error_response status code message retryable = json_response status (
      json_object (
        (
          text "error",
          json_object (
              (text "code", string code)
              ∷ (text "message", string message)
              ∷ (text "retryable", bool retryable)
              ∷ []),
        )
        ∷ []))

  unfoldable pub rate_limited_response : ℕ → HttpResponse
  unfolding error_response
  rate_limited_response retry_after_seconds =
      let limited =
        error_response 429 (text "rate_limited")
          (text "Too many requests. Please retry after the indicated delay.") true in
      record limited {
        headers = insert (text "Retry-After") (decimal retry_after_seconds) limited.headers;
      }

-- a path segment between a prefix and a suffix that is neither empty nor has a slash
abbrev segment : Option Text → Option Text
segment none = none
segment (some s) = if not (is_empty s) && not (contains_char b'/' s) then some s else none

abbrev pub and_then : Option Text → (Text → Option Text) → Option Text
and_then none f = none
and_then (some a) f = f a

unfoldable pub admin_publish_path : Text → Text → Option Text
admin_publish_path path suffix =
    segment (and_then (strip_prefix (text "/admin/publish/") path) (strip_suffix suffix))

unfoldable pub backup_lookup_path : Text → Option Text
backup_lookup_path path = segment (strip_prefix (text "/v1/backups/") path)

unfoldable pub backup_generations_path : Text → Option Text
backup_generations_path path =
    segment
      (and_then (strip_prefix (text "/v1/backups/") path) (strip_suffix (text "/generations")))

-- `str::trim_start_matches` with a text that is not empty: the prefix is taken off as often as it
-- stands there. A text of `f` characters needs at most `f` rounds.
trim_start_matches_fuel : ℕ → Text → Text → Text
trim_start_matches_fuel zero p s = s
trim_start_matches_fuel (suc f) p s = elim (strip_prefix p s) [
  | none ↦ s
  | some rest ↦ trim_start_matches_fuel f p rest
]

unfoldable pub trim_start_matches : Text → Text → Text
unfolding trim_start_matches_fuel
trim_start_matches p s = trim_start_matches_fuel (length s) p s

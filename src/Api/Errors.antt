-- ===== src/Api/Errors.antt =====
-- `ApiError`, `extractMessage` and `describeNetworkError` in frontend/src/lib/api.ts.
use learn_pg.Prelude.{
  ℕ, ◌+◌, Bool, true, ◌&&◌, Option, none, some, List, [], ◌∷◌, String, ltb, leb, ◌==◌, string_eq,
  nat_eq, if◌then◌else◌, ◌++ₛ◌, show,
}
use learn_pg.Prelude.Number.{codes}

-- What a JavaScript `throw` or a rejected promise carries.
pub data Thrown : Type 0 where
  dom_exception : (name message : String) → Thrown
  error_value : (message : String) → Thrown
  other : (as_string : String) → Thrown

pub record ApiError : Type 0 where
  pub message : String
  pub status : ℕ
  pub url : String
  pub method : String
  pub request_id : Option String
  pub cause : Option Thrown

-- The statuses for which `isRetryable` holds; 0 stands for a network error.
abbrev pub retryable_status : ℕ → Bool
retryable_status status =
    if status == 0
    then true
    else if status == 408
    then true
    else if status == 429
    then true
    else leb 500 status && ltb status 600

unfoldable pub is_retryable : ApiError → Bool
is_retryable e = retryable_status e.status

-- A `DOMException` is an `Error` too.
unfoldable pub describe_network_error : Thrown → String
describe_network_error (dom_exception name message) =
    if name == "AbortError" then "Request aborted (timeout or caller cancellation)" else message
describe_network_error (error_value message) = message
describe_network_error (other s) = s

-- A parsed JSON text.
mutual
  pub data Json : Type 0 where
    null : Json
    bool : Bool → Json
    number : ℕ → Json
    text : String → Json
    arr : Items → Json
    obj : Fields → Json

  pub data Items : Type 0 where
    nil : Items
    cons : Json → Items → Items

  pub data Fields : Type 0 where
    end : Fields
    pair : String → Json → Fields → Fields

abbrev pub member : String → Fields → Option Json
member k end = none
member k (pair j v fs) = if j == k then some v else member k fs

-- The length of a text in UTF-16 code units.
abbrev units : List ℕ → ℕ
units [] = 0
units (c ∷ cs) = (if ltb 65535 c then 2 else 1) + units cs

unfoldable pub text_length : String → ℕ
text_length s = units (codes s)

-- A member that is a text other than the empty one.
abbrev pub message_member : Option Json → Option String
message_member (some (text s)) = if s == "" then none else some s
message_member _ = none

-- The loop over `['error', 'message', 'detail']`.
unfoldable pub member_message : List String → Fields → Option String
member_message [] fs = none
member_message (k ∷ ks) fs =
    let rest = member_message ks fs in
    elim (message_member (member k fs)) [ some s ↦ some s | none ↦ rest ]

abbrev pub message_keys : List String
message_keys = "error" ∷ "message" ∷ "detail" ∷ []

unfoldable pub status_message : ℕ → String → String
unfolding text_length
status_message status body =
    if ltb 0 (text_length body) && ltb (text_length body) 500
    then show status ++ₛ ": " ++ₛ body
    else "HTTP " ++ₛ show status

abbrev pub object_message : Option Json → Option String
object_message (some (obj fs)) = member_message message_keys fs
object_message _ = none

abbrev pub or_message : Option String → String → String
or_message none s = s
or_message (some m) s = m

-- An array is an object too, with none of the three members.
unfoldable pub extract_message : Option Json → ℕ → String → String
extract_message parsed status body = or_message (object_message parsed) (status_message status body)

-- ===== src/Balance/Failure.antt =====
-- crates/libsubby/src/balance/mod.rs, failures: the markers of a usage limit in a response body, the
-- classes of failed attempts, and what the router does with each class. A body is a list of bytes.
pub mod Markers
pub mod Rotation
use subbier.Base.{
  ℕ, Bool, true, false, ◌&&◌, Option, none, some, List, [], ◌∷◌, length, any, ltb, ◌==◌,
  if◌then◌else◌, codes, eq_ignore_ascii_case, take,
}

abbrev pub usage_limit_markers : List (List ℕ)
usage_limit_markers =
    codes "GoUsageLimitError"
    ∷ codes "FreeUsageLimitError"
    ∷ codes "Monthly usage limit reached"
    ∷ codes "usage limit"
    ∷ codes "usage_limit"
    ∷ codes "out of budget"
    ∷ codes "quota exceeded"
    ∷ []

-- `haystack.windows(n)`: every run of `n` neighbours, from the left.
unfoldable pub windows : ℕ → List ℕ → List (List ℕ)
windows n [] = []
windows n (x ∷ xs) = if ltb (length (x ∷ xs)) n then [] else take n (x ∷ xs) ∷ windows n xs

unfoldable pub contains_ignore_ascii_case : List ℕ → List ℕ → Bool
unfolding windows
contains_ignore_ascii_case haystack [] = true
contains_ignore_ascii_case haystack (c ∷ cs) =
    if ltb (length haystack) (length (c ∷ cs))
    then false
    else any (λ w. eq_ignore_ascii_case w (c ∷ cs)) (windows (length (c ∷ cs)) haystack)

unfoldable pub is_usage_limit_body : List ℕ → Bool
unfolding contains_ignore_ascii_case
is_usage_limit_body body = any (contains_ignore_ascii_case body) usage_limit_markers

unfoldable pub is_usage_limit_error : ℕ → List ℕ → Bool
unfolding is_usage_limit_body
is_usage_limit_error status body = status == 429 && is_usage_limit_body body

-- One upstream failure, as the proxy observed it.
pub record Attempt : Type 0 where
  pub status : ℕ
  pub body : List ℕ
  pub request_scoped : Bool
  pub retried_auth : Bool

unfoldable pub new_attempt : ℕ → List ℕ → Attempt
new_attempt status body = record {
  status = status;
  body = body;
  request_scoped = false;
  retried_auth = false;
}

unfoldable pub request_scoped : Attempt → Attempt
request_scoped a = record a { request_scoped = true }

unfoldable pub after_auth_retry : Attempt → Attempt
after_auth_retry a = record a { retried_auth = true }

pub data FailureClass : Type 0 where
  usage_limit : FailureClass
  scoped_to_request : FailureClass
  rate_limited : FailureClass
  auth_retryable : FailureClass
  auth_permanent : FailureClass
  refresh_transient : FailureClass
  refresh_permanent : FailureClass
  passthrough : FailureClass

unfoldable pub classify : Attempt → FailureClass
classify a =
    if a.request_scoped
    then scoped_to_request
    else if a.status == 429
    then (if is_usage_limit_body a.body then usage_limit else rate_limited)
    else if a.status == 401
    then (if a.retried_auth then auth_permanent else auth_retryable)
    else passthrough

pub data Disposition : Type 0 where
  pass_through : Disposition
  retry_same_sub : Disposition
  rotate : Disposition
  fail : ℕ → Disposition

unfoldable pub quarantines : FailureClass → Bool
quarantines usage_limit = true
quarantines auth_permanent = true
quarantines refresh_permanent = true
quarantines _ = false

unfoldable pub disposition : FailureClass → Disposition
disposition usage_limit = rotate
disposition auth_permanent = rotate
disposition refresh_permanent = rotate
disposition auth_retryable = retry_same_sub
disposition refresh_transient = fail 502
disposition scoped_to_request = pass_through
disposition rate_limited = pass_through
disposition passthrough = pass_through

unfoldable pub classify_refresh : Option ℕ → FailureClass
classify_refresh none = refresh_transient
classify_refresh (some status) =
    if status == 400
    then refresh_permanent
    else if status == 401
    then refresh_permanent
    else if status == 403
    then refresh_permanent
    else refresh_transient

-- ===== src/Balance/Failure/Rotation.antt =====
-- Which failures make the router give up on an account.
use subbier.Base.{
  ℕ, ◌≡◌, ◌↔◌, ◌⊎◌, true, false, Option, some, List, arith, Elem, any-Elem, Elem-any,
}
use subbier.Balance.Failure.{
  usage_limit_markers, is_usage_limit_body, contains_ignore_ascii_case, Attempt, FailureClass,
  classify, quarantines, disposition, rotate, classify_refresh,
}
use subbier.Balance.Failure.Markers.{Occurs, contains-Occurs, Occurs-contains}

-- A response body counts as a usage limit exactly when one of the seven markers stands somewhere in
-- it, in any ASCII case.
is_usage_limit_body_iff :
    (body : List ℕ)
    → (is_usage_limit_body body ≡ true)
      ↔ ((marker : List ℕ) × Elem marker usage_limit_markers × Occurs marker body)
unfolding is_usage_limit_body
is_usage_limit_body_iff body = (
  λ h.
      let (m, e, c) = any-Elem (contains_ignore_ascii_case body) usage_limit_markers h in
      (m, e, contains-Occurs body m c),
  λ o.
      Elem-any (contains_ignore_ascii_case body) o.0 usage_limit_markers o.1
        (Occurs-contains body o.0 o.2),
)

-- An attempt makes the proxy try another account exactly when it was not scoped to the request and
-- was either a 429 with a usage-limit body or a 401 that had survived a token refresh.
rotates_iff :
    (a : Attempt)
    → (disposition (classify a) ≡ rotate) ↔ (
        (a.request_scoped ≡ false)
        × (((a.status ≡ 429) × (is_usage_limit_body a.body ≡ true))
            ⊎ ((a.status ≡ 401) × (a.retried_auth ≡ true))))
unfolding disposition classify
rotates_iff a = ground arith

-- A failure quarantines the account exactly when it also rotates, and the refresh of a token does
-- so exactly when the token endpoint answered 400, 401 or 403.
quarantines_iff :
    (c : FailureClass) (status : Option ℕ)
    → ((quarantines c ≡ true) ↔ (disposition c ≡ rotate))
      × ((quarantines (classify_refresh status) ≡ true)
          ↔ ((status ≡ some 400) ⊎ (status ≡ some 401) ⊎ (status ≡ some 403)))
unfolding quarantines disposition classify_refresh
quarantines_iff c status = (ground arith, ground arith)

-- ===== src/Auth/Recovery.antt =====
-- What a refresh comes to, auth/mod.rs: the endpoint's answer and recover_adopted.
use subbier.Base.{
  ◌≡◌, ◌↔◌, ◌≢◌, ◌⊎◌, inl, inr, refl, subst, Bool, true, false, ◌&&◌, Option, none, some, String,
  Bool-cases, same_string, same_string_iff,
}
use subbier.Model.{Tokens, Timestamp, is_expired}
use subbier.Auth.{
  expiry_skew, Refreshing, fresh, failed, CredentialSource, adopted, keychain, own,
  same_option_text, retry, recover_found, recover_adopted, or_recovered, settled_with,
  refresh_outcome,
}

same_option_text_iff : (a b : Option String) → (same_option_text a b ≡ true) ↔ (a ≡ b)
same_option_text_iff none none = (λ h. refl, λ h. refl)
same_option_text_iff none (some b) = (λ h. absurd (cc), λ h. absurd (cc))
same_option_text_iff (some a) none = (λ h. absurd (cc), λ h. absurd (cc))
same_option_text_iff (some a) (some b) =
    let q = same_string_iff a b in (λ h. let e = q.0 h in cc, λ h. q.1 (let e : a ≡ b = cc in e))

module _ (refresh_at : String → Refreshing) (current : Tokens) (now : Timestamp) where
  -- The credential found at the source is no better: it is the one in use, or it has run out and has
  -- no refresh token or one that the endpoint rejects too.
  abbrev pub IsDead : Tokens → Type 0
  IsDead found =
      ((found.refresh ≡ current.refresh) × (found.access ≡ current.access))
      ⊎ ((is_expired found now expiry_skew ≡ true)
          × ((found.refresh ≡ none)
              ⊎ ((token : String) × (found.refresh ≡ some token)
                  × (refresh_at token ≡ failed true))))

  -- Nothing is left to try.
  abbrev pub IsLost : CredentialSource → Option Tokens → Type 0
  IsLost source found =
      (source ≡ own) ⊎ (found ≡ none) ⊎ ((t : Tokens) × (found ≡ some t) × IsDead t)

  and_iff : (a b : Bool) → ((a && b) ≡ true) ↔ ((a ≡ true) × (b ≡ true))
  and_iff true b = (λ h. (refl, h), λ h. h.1)
  and_iff false b = (λ h. absurd (cc), λ h. absurd (let q = h.0 in cc))

  same_iff :
      (found : Tokens)
      → ((same_option_text found.refresh current.refresh && same_string found.access current.access)
          ≡ true)
        ↔ ((found.refresh ≡ current.refresh) × (found.access ≡ current.access))
  same_iff found =
      let a =
        and_iff (same_option_text found.refresh current.refresh)
          (same_string found.access current.access) in
      let r = same_option_text_iff found.refresh current.refresh in
      let s = same_string_iff found.access current.access in
      (λ h. let p = a.0 h in (r.0 p.0, s.0 p.1), λ h. a.1 (r.1 h.0, s.1 h.1))

  -- Recovery does not help.
  abbrev NoHelp : Option Refreshing → Type 0
  NoHelp o = or_recovered (failed true) o ≡ failed true

  retry_iff :
      (o : Option String)
      → NoHelp (retry refresh_at o)
        ↔ ((o ≡ none) ⊎ ((token : String) × (o ≡ some token) × (refresh_at token ≡ failed true)))
  retry_iff none = (λ h. inl refl, λ h. refl)
  retry_iff (some t) = (
    λ h. inr (t, refl, h),
    λ h. elim h [ inl e ↦ absurd (cc) | inr (u, e, k) ↦ let q : t ≡ u = cc in rw q k ],
  )

  recover_found_iff :
      (found : Tokens) → NoHelp (recover_found refresh_at current now (some found)) ↔ IsDead found
  recover_found_iff found =
      elim (Bool-cases (
        same_option_text found.refresh current.refresh
        && same_string found.access current.access)) [
          | inl e ↦ rw e (λ h. inl ((same_iff found).0 e), λ h. refl)
          | inr e ↦ elim (Bool-cases (is_expired found now expiry_skew)) [
            | inl x ↦
                rw (e, x)
                  (
                    λ h. inr (refl, (retry_iff found.refresh).0 h),
                    λ h. elim h [
                      | inl s ↦ absurd (let q = (same_iff found).1 s in cc)
                      | inr (y, s) ↦ (retry_iff found.refresh).1 s
                    ],
                  )
            | inr x ↦
                rw (e, x)
                  (
                    λ h. absurd (cc),
                    λ h.
                        absurd
                          (elim h [ inl s ↦ let q = (same_iff found).1 s in cc | inr (y, s) ↦ cc ]),
                  )
          ]
        ]

  not_own_iff :
      (source : CredentialSource) (o : Option Tokens)
      → (source ≢ own)
      → NoHelp (recover_found refresh_at current now o) ↔ IsLost source o
  not_own_iff source none s = (λ h. inr (inl refl), λ h. refl)
  not_own_iff source (some t) s =
      let f = recover_found_iff t in
      (
        λ h. inr (inr (t, refl, f.0 h)),
        λ h. f.1 (elim h [
          | inl e ↦ absurd (s e)
          | inr (inl e) ↦ absurd (cc)
          | inr (inr (u, e, d)) ↦ let q : u ≡ t = cc in subst IsDead q d
        ]),
      )

  recover_adopted_iff :
      (source : CredentialSource) (o : Option Tokens)
      → NoHelp (recover_adopted refresh_at source current now o) ↔ IsLost source o
  unfolding recover_adopted
  recover_adopted_iff own o = (λ h. inl refl, λ h. refl)
  recover_adopted_iff adopted o = not_own_iff adopted o (λ e. cc)
  recover_adopted_iff keychain o = not_own_iff keychain o (λ e. cc)

  settled_iff :
      (recovered : Option Refreshing) (r : Refreshing)
      → (settled_with recovered r ≡ failed true) ↔ ((r ≡ failed true) × NoHelp recovered)
  settled_iff recovered (failed true) = (λ h. (refl, h), λ h. h.1)
  settled_iff recovered (failed false) = (λ h. absurd (cc), λ h. absurd (let q = h.0 in cc))
  settled_iff recovered (fresh t) = (λ h. absurd (cc), λ h. absurd (let q = h.0 in cc))

  -- A refresh fails for good exactly when the endpoint rejects the refresh token and nothing is left to
  -- try: the credential is subbier's own, or its source has none, or what the source has is the
  -- credential in use, or has run out and has no refresh token or one that the endpoint rejects too.
  pub refresh_outcome-permanent_iff :
      (source : CredentialSource) (found : Option Tokens) (refresh_token : String)
      → (refresh_outcome refresh_at source current now found refresh_token ≡ failed true)
        ↔ ((refresh_at refresh_token ≡ failed true) × IsLost source found)
  unfolding refresh_outcome
  refresh_outcome-permanent_iff source found refresh_token =
      let s =
        settled_iff (recover_adopted refresh_at source current now found)
          (refresh_at refresh_token) in
      let l = recover_adopted_iff source found in
      (λ h. let p = s.0 h in (p.0, l.0 p.1), λ h. s.1 (h.0, l.1 h.1))

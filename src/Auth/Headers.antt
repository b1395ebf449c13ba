-- ===== src/Auth/Headers.antt =====
-- internal/auth/store.go: the two ways to a header agree.
use mathlib.Core.Path.{subst}
use gomposer.Prelude.{
  false, not, ◌||◌, Option, none, some, ◌++◌, ◌≡◌, refl, arith, Bool-cases, inl, inr,
}
use gomposer.Prelude.Bytes.{Bytes, codes}
use gomposer.Strings.{is_empty}
use gomposer.Table.{get}
use gomposer.Auth.{
  Kind, kind_none, http_basic, bearer, github_oauth, gitlab_token, gitlab_oauth, Credentials,
  BasicCred, GitLabCred, AuthFile, token_credentials, token_section, basic_section, gitlab_section,
  or_else, lookup_host, lookup_credentials, authorization_header, http_header, apply,
  no_credentials, norm_host,
}

-- What Lookup hands out: a kind, and a token for the GitLab tokens.
abbrev Usable : Credentials → Type 0
Usable c = (no_credentials c ≡ false) × (c.kind ≡ gitlab_token → is_empty c.token ≡ false)

abbrev OnFound : Option Credentials → Type 0
OnFound none = Unit
OnFound (some c) = Usable c

OnFound-or_else : (a b : Option Credentials) → OnFound a → OnFound b → OnFound (or_else a b)
OnFound-or_else none b h k = k
OnFound-or_else (some c) b h k = h

OnFound-token :
    (k : Kind) (h : Bytes)
    → ((t : Bytes) → Usable (token_credentials k h t))
    → (t : Option Bytes) → OnFound (token_section k h t)
unfolding token_section
OnFound-token k h u none = tt
OnFound-token k h u (some t) = elim (Bool-cases (is_empty t)) [
  | inl e ↦ rw e tt
  | inr e ↦ rw e (u t)
]

OnFound-basic : (h : Bytes) (b : Option BasicCred) → OnFound (basic_section h b)
unfolding basic_section no_credentials
OnFound-basic h none = tt
OnFound-basic h (some b) =
    elim (Bool-cases (not (is_empty b.username) || not (is_empty b.password))) [
      | inl e ↦ rw e (refl, λ k. ground (arith, k))
      | inr e ↦ rw e tt
    ]

OnFound-gitlab : (h : Bytes) (g : Option GitLabCred) → OnFound (gitlab_section h g)
unfolding gitlab_section no_credentials
OnFound-gitlab h none = tt
OnFound-gitlab h (some g) = elim (Bool-cases (is_empty g.token)) [
  | inl e ↦ rw e tt
  | inr e ↦ rw e (refl, λ k. e)
]

lookup_host-Usable : (f : AuthFile) (h : Bytes) → OnFound (lookup_host f h)
unfolding lookup_host no_credentials
lookup_host-Usable f h =
    OnFound-or_else _ _
      (OnFound-token bearer h (λ t. (refl, λ k. ground (arith, k))) (get h f.bearers))
      (OnFound-or_else _ _ (OnFound-basic h (get h f.basics)) (
        OnFound-or_else _ _
          (OnFound-token github_oauth h (λ t. (refl, λ k. ground (arith, k)))
            (get h f.github_oauths))
          (OnFound-or_else _ _ (OnFound-gitlab h (get h f.gitlab_tokens)) (
            OnFound-token gitlab_oauth h (λ t. (refl, λ k. ground (arith, k)))
              (get h f.gitlab_oauths)))))

headers_agree :
    (base64 : Bytes → Bytes) (basic_auth : Bytes → Bytes → Bytes)
    → ((u p : Bytes) → basic_auth u p ≡ codes "Basic " ++ base64 (u ++ codes ":" ++ p))
    → (c : Credentials) → Usable c
    → (header : Bytes × Bytes) × (http_header base64 c ≡ some header)
      × (apply basic_auth c ≡ some header)
unfolding http_header apply authorization_header no_credentials
headers_agree base64 basic_auth h c (is_some, token_there) = go c.kind refl
  where
    go :
        (k : Kind)
        → c.kind ≡ k
        → (header : Bytes × Bytes) × (http_header base64 c ≡ some header)
          × (apply basic_auth c ≡ some header)
    go kind_none e = let absurd = rw e at is_some in ground (arith, absurd)
    go http_basic e =
        ((codes "Authorization", basic_auth c.username c.password), rw (e, h) refl, rw e refl)
    go bearer e = ((codes "Authorization", codes "Bearer " ++ c.token), rw e refl, rw e refl)
    go github_oauth e = ((codes "Authorization", codes "token " ++ c.token), rw e refl, rw e refl)
    go gitlab_token e = ((codes "Private-Token", c.token), rw (e, token_there e) refl, rw e refl)
    go gitlab_oauth e = ((codes "Authorization", codes "Bearer " ++ c.token), rw e refl, rw e refl)

-- Credentials that Lookup finds give a header, and Apply sets just the one that HTTPHeader returns, where SetBasicAuth sets
-- "Basic " and the encoded user name and password.
lookup_credentials-headers :
    (base64 : Bytes → Bytes) (basic_auth : Bytes → Bytes → Bytes)
    → ((u p : Bytes) → basic_auth u p ≡ codes "Basic " ++ base64 (u ++ codes ":" ++ p))
    → (f : AuthFile) (host : Bytes) (c : Credentials) → lookup_credentials f host ≡ some c
    → (header : Bytes × Bytes) × (http_header base64 c ≡ some header)
      × (apply basic_auth c ≡ some header)
unfolding lookup_credentials
lookup_credentials-headers base64 basic_auth h f host c e =
    headers_agree base64 basic_auth h c (subst OnFound e (lookup_host-Usable f (norm_host host)))

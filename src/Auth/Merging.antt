-- ===== src/Auth/Merging.antt =====
-- internal/auth/store.go: which entry of the two files a host gets.
use gomposer.Prelude.{
  Bool, true, false, Option, Option-cases, none, some, [], ◌∷◌, ◌++◌, ◌≡◌, refl, sym, ap, ◌∙◌,
  Bool-cases, inl, inr, if◌then◌else◌, map,
}
use gomposer.Prelude.Bytes.{Bytes}
use gomposer.Strings.{eq, lower_byte, cut_first}
use gomposer.Table.{Table, get, put, get-put}
use gomposer.Auth.{
  is_colon, before_port, AuthFile, norm_host, merge_section, merge_files, lookup_host,
  lookup_credentials,
}

-- The last entry whose normalized host is `h`.
unfoldable pub registered {ℓ} : {A : Type ℓ} → Table A → Bytes → Option A
unfolding eq norm_host
registered [] h = none
registered ((k, v) ∷ m) h = elim (registered m h) [
  | some w ↦ some w
  | none ↦ if eq (norm_host k) h then some v else none
]

-- The entry of the first file, unless there is one of the second.
unfoldable pub overridden {ℓ} : {A : Type ℓ} → Option A → Option A → Option A
overridden none b = b
overridden (some a) b = some a

choose {ℓ} :
    {A : Type ℓ} (b : Bool) (v : A) (rest : Option A)
    → (if b then some v else rest) ≡ overridden (if b then some v else none) rest
unfolding overridden
choose true v rest = refl
choose false v rest = refl

get-merge_section {ℓ} :
    {A : Type ℓ} (m out : Table A) (h : Bytes)
    → get h (merge_section m out) ≡ overridden (registered m h) (get h out)
unfolding merge_section registered overridden
get-merge_section [] out h = refl
get-merge_section ((k, v) ∷ m) out h = elim (Option-cases (registered m h)) [
  | inl e ↦
      rw (get-merge_section m (put (norm_host k) v out) h, e, get-put (norm_host k) v out h)
        (choose (eq (norm_host k) h) v (get h out))
  | inr (w, e) ↦ rw (get-merge_section m (put (norm_host k) v out) h, e) refl
]

no_third {ℓ} : {A : Type ℓ} (a : Option A) → overridden a none ≡ a
unfolding overridden
no_third none = refl
no_third (some a) = refl

both {ℓ} :
    {A : Type ℓ} (composer user : Table A) (h : Bytes)
    → get h (merge_section user (merge_section composer []))
      ≡ overridden (registered user h) (registered composer h)
unfolding overridden get
both composer user h =
    rw (get-merge_section user (merge_section composer []) h, get-merge_section composer [] h)
      (ap (overridden (registered user h)) (no_third (registered composer h)))

-- For each kind of credentials, the merged file has for a normalized host the last entry of the user's file whose host
-- is this one up to case and port, and only where there is none the last one of the composer file.
pub get-merge_files :
    (composer user : AuthFile) (h : Bytes)
    → (get h (merge_files composer user).basics
        ≡ overridden (registered user.basics h) (registered composer.basics h))
      × (get h (merge_files composer user).bearers
          ≡ overridden (registered user.bearers h) (registered composer.bearers h))
      × (get h (merge_files composer user).github_oauths
          ≡ overridden (registered user.github_oauths h) (registered composer.github_oauths h))
      × (get h (merge_files composer user).gitlab_tokens
          ≡ overridden (registered user.gitlab_tokens h) (registered composer.gitlab_tokens h))
      × (get h (merge_files composer user).gitlab_oauths
          ≡ overridden (registered user.gitlab_oauths h) (registered composer.gitlab_oauths h))
unfolding merge_files
get-merge_files composer user h = (
  both composer.basics user.basics h,
  both composer.bearers user.bearers h,
  both composer.github_oauths user.github_oauths h,
  both composer.gitlab_tokens user.gitlab_tokens h,
  both composer.gitlab_oauths user.gitlab_oauths h,
)

cut-colon :
    (name rest other : Bytes)
    → (host : Bytes) × (port : Bytes) × (port' : Bytes) × (cut_first is_colon
          (map lower_byte (name ++ b':' ∷ rest))
        ≡ some (host, port))
      × (cut_first is_colon (map lower_byte (name ++ b':' ∷ other)) ≡ some (host, port'))
unfolding cut_first lower_byte
cut-colon [] rest other = ([], map lower_byte rest, map lower_byte other, refl, refl)
cut-colon (c ∷ name) rest other =
    let (host, port, port', e, f) = cut-colon name rest other in
    elim (Bool-cases (is_colon (lower_byte c))) [
      | inl h ↦ (
        [],
        map lower_byte (name ++ b':' ∷ rest),
        map lower_byte (name ++ b':' ∷ other),
        rw h refl,
        rw h refl,
      )
      | inr h ↦ (lower_byte c ∷ host, port, port', rw (h, e) refl, rw (h, f) refl)
    ]

norm_host-colon :
    (name rest other : Bytes) → norm_host (name ++ b':' ∷ rest) ≡ norm_host (name ++ b':' ∷ other)
unfolding norm_host
norm_host-colon name rest other =
    let (host, port, port', e, f) = cut-colon name rest other in
    ap (before_port (map lower_byte (name ++ b':' ∷ rest))) e
    ∙ sym (ap (before_port (map lower_byte (name ++ b':' ∷ other))) f)

-- Of a host, Lookup reads only what stands before its first colon, in lower case: two hosts that agree there have the
-- same credentials, whatever follows.
lookup_credentials-colon :
    (f : AuthFile) (name rest other : Bytes)
    → lookup_credentials f (name ++ b':' ∷ rest) ≡ lookup_credentials f (name ++ b':' ∷ other)
unfolding lookup_credentials
lookup_credentials-colon f name rest other = ap (lookup_host f) (norm_host-colon name rest other)

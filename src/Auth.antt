-- ===== src/Auth.antt =====
-- internal/auth: the store of credentials and the headers made of them.
mod Samples
pub mod Headers
pub mod Merging
use gomposer.Prelude.{
  ℕ, Bool, true, false, not, ◌||◌, Option, none, some, List, [], ◌∷◌, ◌++◌, ◌==◌, if◌then◌else◌,
  map,
}
use gomposer.Prelude.Bytes.{Bytes, codes}
use gomposer.Strings.{is_empty, lower_byte, cut_first}
use gomposer.Table.{Table, get, put}

pub data Kind : Type 0 where
  kind_none http_basic bearer github_oauth gitlab_token gitlab_oauth : Kind

pub record Credentials : Type 0 where
  pub kind : Kind
  pub host : Bytes
  pub username : Bytes
  pub password : Bytes
  pub token : Bytes

pub record BasicCred : Type 0 where
  pub username : Bytes
  pub password : Bytes

pub record GitLabCred : Type 0 where
  pub username : Bytes
  pub token : Bytes

-- file: the sections of auth.json. A store is its merged file; its warnings on permissions are left out.
pub record AuthFile : Type 0 where
  pub basics : Table BasicCred
  pub bearers : Table Bytes
  pub github_oauths : Table Bytes
  pub gitlab_tokens : Table GitLabCred
  pub gitlab_oauths : Table Bytes

unfoldable pub show_kind : Kind → Bytes
show_kind http_basic = codes "http-basic"
show_kind bearer = codes "bearer"
show_kind github_oauth = codes "github-oauth"
show_kind gitlab_token = codes "gitlab-token"
show_kind gitlab_oauth = codes "gitlab-oauth"
show_kind kind_none = codes "none"

-- Credentials.Empty
unfoldable pub no_credentials : Credentials → Bool
no_credentials c = elim c.kind [ kind_none ↦ true | _ ↦ false ]

abbrev pub is_colon : ℕ → Bool
is_colon c = c == b':'

abbrev pub before_port : Bytes → Option (Bytes × Bytes) → Bytes
before_port low none = low
before_port low (some (host, port)) = host

unfoldable pub norm_host : Bytes → Bytes
unfolding lower_byte cut_first
norm_host h = before_port (map lower_byte h) (cut_first is_colon (map lower_byte h))

-- One loop of mergeFiles: the entries of a section, under their normalized hosts.
unfoldable pub merge_section {ℓ} : {A : Type ℓ} → Table A → Table A → Table A
unfolding put norm_host
merge_section [] out = out
merge_section ((h, v) ∷ m) out = merge_section m (put (norm_host h) v out)

unfoldable pub merge_files : AuthFile → AuthFile → AuthFile
unfolding merge_section
merge_files composer user = record {
  basics = merge_section user.basics (merge_section composer.basics []);
  bearers = merge_section user.bearers (merge_section composer.bearers []);
  github_oauths = merge_section user.github_oauths (merge_section composer.github_oauths []);
  gitlab_tokens = merge_section user.gitlab_tokens (merge_section composer.gitlab_tokens []);
  gitlab_oauths = merge_section user.gitlab_oauths (merge_section composer.gitlab_oauths []);
}

abbrev pub token_credentials : Kind → Bytes → Bytes → Credentials
token_credentials k h t = record { kind = k; host = h; username = []; password = []; token = t }

-- The test of one section of Store.Lookup: the entry is there and not empty.
unfoldable pub token_section : Kind → Bytes → Option Bytes → Option Credentials
unfolding is_empty
token_section k h none = none
token_section k h (some t) = if not (is_empty t) then some (token_credentials k h t) else none

unfoldable pub basic_section : Bytes → Option BasicCred → Option Credentials
unfolding is_empty
basic_section h none = none
basic_section h (some b) =
    if not (is_empty b.username) || not (is_empty b.password)
    then some (record {
      kind = http_basic;
      host = h;
      username = b.username;
      password = b.password;
      token = [];
    })
    else none

unfoldable pub gitlab_section : Bytes → Option GitLabCred → Option Credentials
unfolding is_empty
gitlab_section h none = none
gitlab_section h (some g) =
    if not (is_empty g.token)
    then some (record {
      kind = gitlab_token;
      host = h;
      username = g.username;
      password = [];
      token = g.token;
    })
    else none

abbrev pub or_else : Option Credentials → Option Credentials → Option Credentials
or_else (some c) later = some c
or_else none later = later

-- Store.Lookup for a normalized host, on a store that is not nil.
unfoldable pub lookup_host : AuthFile → Bytes → Option Credentials
unfolding token_section basic_section gitlab_section get
lookup_host f h = or_else (token_section bearer h (get h f.bearers)) (
    or_else (basic_section h (get h f.basics)) (
      or_else (token_section github_oauth h (get h f.github_oauths)) (
        or_else (gitlab_section h (get h f.gitlab_tokens))
          (token_section gitlab_oauth h (get h f.gitlab_oauths)))))

unfoldable pub lookup_credentials : AuthFile → Bytes → Option Credentials
unfolding lookup_host norm_host
lookup_credentials f host = lookup_host f (norm_host host)

-- gitUserToken
unfoldable pub git_user_token : Credentials → Bytes × Bytes
git_user_token c = elim c.kind [
  | http_basic ↦ (c.username, c.password)
  | bearer ↦ (codes "x-access-token", c.token)
  | github_oauth ↦ (codes "x-access-token", c.token)
  | gitlab_token ↦ (codes "oauth2", c.token)
  | gitlab_oauth ↦ (codes "oauth2", c.token)
  | kind_none ↦ ([], [])
]

-- `base64` stands for base64.StdEncoding.EncodeToString.
module _ (base64 : Bytes → Bytes) where
  unfoldable pub authorization_header : Credentials → Bytes
  authorization_header c = elim c.kind [
    | bearer ↦ codes "Bearer " ++ c.token
    | gitlab_oauth ↦ codes "Bearer " ++ c.token
    | github_oauth ↦ codes "token " ++ c.token
    | http_basic ↦ codes "Basic " ++ base64 (c.username ++ codes ":" ++ c.password)
    | gitlab_token ↦ []
    | kind_none ↦ []
  ]

  abbrev pub authorization : Bytes → Option (Bytes × Bytes)
  unfolding is_empty
  authorization v = if not (is_empty v) then some (codes "Authorization", v) else none

  -- HTTPHeader: the name and the value, or none.
  unfoldable pub http_header : Credentials → Option (Bytes × Bytes)
  unfolding authorization_header is_empty
  http_header c = elim c.kind [
    | gitlab_token ↦
        if not (is_empty c.token)
        then some (codes "Private-Token", c.token)
        else authorization (authorization_header c)
    | _ ↦ authorization (authorization_header c)
  ]

-- Apply: the header that it sets, on a request that is not nil. `basic_auth` stands for the value of Authorization that
-- http.Request.SetBasicAuth sets.
unfoldable pub apply : (Bytes → Bytes → Bytes) → Credentials → Option (Bytes × Bytes)
unfolding no_credentials
apply basic_auth c = if no_credentials c then none else elim c.kind [
  | http_basic ↦ some (codes "Authorization", basic_auth c.username c.password)
  | bearer ↦ some (codes "Authorization", codes "Bearer " ++ c.token)
  | gitlab_oauth ↦ some (codes "Authorization", codes "Bearer " ++ c.token)
  | github_oauth ↦ some (codes "Authorization", codes "token " ++ c.token)
  | gitlab_token ↦ some (codes "Private-Token", c.token)
  | kind_none ↦ none
]

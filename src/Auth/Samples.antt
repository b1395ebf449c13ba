-- ===== src/Auth/Samples.antt =====
-- internal/auth on concrete files.
use gomposer.Prelude.{some, [], ◌∷◌, ◌≡◌, refl}
use gomposer.Prelude.Bytes.{Bytes, codes}
use gomposer.Table.{get}
use gomposer.Auth.{AuthFile, Credentials, http_basic, merge_files, lookup_credentials}
use gomposer.Auth.Merging.{overridden, registered, get-merge_files}

abbrev composer_file : AuthFile
composer_file = record {
  basics =
      (codes "repo.example.org", record { username = codes "me"; password = codes "old" }) ∷ [];
  bearers = (codes "git.example.org", codes "t1") ∷ [];
  github_oauths = [];
  gitlab_tokens = [];
  gitlab_oauths = [];
}

abbrev user_file : AuthFile
user_file = record {
  basics =
      (codes "Repo.Example.org:443", record { username = codes "me"; password = codes "new" }) ∷ [];
  bearers = [];
  github_oauths = (codes "github.com", codes "t2") ∷ [];
  gitlab_tokens = [];
  gitlab_oauths = [];
}

get-merge_files_example :
    (get (codes "repo.example.org") (merge_files composer_file user_file).basics
      ≡ overridden
          (registered user_file.basics (codes "repo.example.org"))
          (registered composer_file.basics (codes "repo.example.org")))
    × (get (codes "repo.example.org") (merge_files composer_file user_file).bearers
        ≡ overridden
            (registered user_file.bearers (codes "repo.example.org"))
            (registered composer_file.bearers (codes "repo.example.org")))
    × (get (codes "repo.example.org") (merge_files composer_file user_file).github_oauths
        ≡ overridden
            (registered user_file.github_oauths (codes "repo.example.org"))
            (registered composer_file.github_oauths (codes "repo.example.org")))
    × (get (codes "repo.example.org") (merge_files composer_file user_file).gitlab_tokens
        ≡ overridden
            (registered user_file.gitlab_tokens (codes "repo.example.org"))
            (registered composer_file.gitlab_tokens (codes "repo.example.org")))
    × (get (codes "repo.example.org") (merge_files composer_file user_file).gitlab_oauths
        ≡ overridden
            (registered user_file.gitlab_oauths (codes "repo.example.org"))
            (registered composer_file.gitlab_oauths (codes "repo.example.org")))
get-merge_files_example = get-merge_files composer_file user_file (codes "repo.example.org")

-- An encoding for the samples: the text itself.
abbrev plain : Bytes → Bytes
plain s = s

abbrev sample_credentials : Credentials
sample_credentials = record {
  kind = http_basic;
  host = codes "repo.example.org";
  username = codes "me";
  password = codes "new";
  token = [];
}

sample_found :
    lookup_credentials (merge_files composer_file user_file) (codes "REPO.example.org:8080")
    ≡ some sample_credentials
unfolding lookup_credentials merge_files
sample_found = refl

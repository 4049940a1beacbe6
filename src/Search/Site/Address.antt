-- ===== src/Search/Site/Address.antt =====
-- What a browser takes out of the address that the panel has made.
use parse_embedded_sdks.Base.{ℕ, ◌≡◌, ◌≢◌, refl, ap, some, [], ◌∷◌, ◌++◌, Bytes, All, arith}
use parse_embedded_sdks.Search.Site.{path_of, query_of, without_fragment, search_of, drop_prefix}

-- Neither begins a query nor a fragment.
abbrev pub IsPathUnit : ℕ → Type 0
IsPathUnit c = (c ≢ b'?') × (c ≢ b'#')

pub path_of-append :
    (path query : Bytes) → All IsPathUnit path → path_of (path ++ b'?' ∷ query) ≡ path
path_of-append [] query h = refl
path_of-append (c ∷ path) query h = ground (arith, path_of-append path query h.1)

pub path_of_path : (path : Bytes) → All IsPathUnit path → path_of path ≡ path
path_of_path [] h = refl
path_of_path (c ∷ path) h = ground (arith, path_of_path path h.1)

without_fragment_lem : (s : Bytes) → All (λ c. c ≢ b'#') s → without_fragment s ≡ s
without_fragment_lem [] h = refl
without_fragment_lem (c ∷ s) h = ground (arith, without_fragment_lem s h.1)

pub query_of-append :
    (path query : Bytes)
    → All IsPathUnit path
    → All (λ c. c ≢ b'#') query
    → query_of (path ++ b'?' ∷ query) ≡ search_of query
query_of-append [] query h k = ap search_of (without_fragment_lem query k)
query_of-append (c ∷ path) query h k = ground (arith, query_of-append path query h.1 k)

pub query_of_path : (path : Bytes) → All IsPathUnit path → query_of path ≡ []
query_of_path [] h = refl
query_of_path (c ∷ path) h = ground (arith, query_of_path path h.1)

pub drop_prefix-append : (prefix text : Bytes) → drop_prefix prefix (prefix ++ text) ≡ some text
drop_prefix-append [] text = refl
drop_prefix-append (c ∷ prefix) text = ground (arith, drop_prefix-append prefix text)

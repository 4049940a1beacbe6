-- ===== src/Samples/Tests.antt =====
-- The URL encoding on concrete texts.
use parse_embedded_sdks.Base.{◌*◌, ◌≡◌, ◌≤◌, refl, some, [], ◌∷◌, ◌++◌, Bytes, codes, length, arith}
use parse_embedded_sdks.CString.{IsText}
use parse_embedded_sdks.Samples.Urlencode.{url_encode, url_decode}
use parse_embedded_sdks.Samples.Urlencode.Laws.{url_encode-url_decode}

encode_test : url_encode (codes "a {1}" ++ 0 ∷ []) ≡ some (codes "a+%7b1%7d")
unfolding url_encode
encode_test = refl

-- A `%` that is not an escape is lost.
decode_test : url_decode (codes "5%" ++ 0 ∷ []) ≡ some (codes "5")
unfolding url_decode
decode_test = refl

url_encode-url_decode_example :
    (e : Bytes) × (url_encode (codes "a %\"" ++ 0 ∷ 1 ∷ []) ≡ some e)
    × IsText e
    × (length e ≤ 3 * length (codes "a %\""))
    × (url_decode (e ++ 0 ∷ []) ≡ some (codes "a %\""))
url_encode-url_decode_example =
    url_encode-url_decode (codes "a %\"") (1 ∷ []) [] (ground arith) (ground arith)

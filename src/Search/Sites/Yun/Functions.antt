-- ===== src/Search/Sites/Yun/Functions.antt =====
-- The entries of the pages of results: `searchData` of docs/yun/html/search/functions_0.js to functions_5.js, in order.
use parse_embedded_sdks.Base.{true, List, [], ◌∷◌}
use parse_embedded_sdks.Search.Page.{SearchEntry}
use parse_embedded_sdks.Search.Sites.Entry.{entry, place}

abbrev pub functions_0 : List SearchEntry
functions_0 =
    (entry "add" "add" (
      (place "../class_parse_object_create.html#aef6a2f97213830e6bed87072582cacd2" true
        "ParseObjectCreate::add(const char *key, int d)")
      ∷ (place "../class_parse_object_create.html#a387eeceadeff3ee518bb0d7799e64079" true
          "ParseObjectCreate::add(const char *key, double d)")
      ∷ (place "../class_parse_object_create.html#acfe8ab5db42e693229572f3ac026e59d" true
          "ParseObjectCreate::add(const char *key, const char *s)")
      ∷ (place "../class_parse_object_create.html#aaae9d6ef53dfab038595042411ea87b5" true
          "ParseObjectCreate::add(const char *key, bool b)")
      ∷ []))
    ∷ (entry "addgeopoint" "addGeoPoint" (
        (place "../class_parse_object_create.html#a26e0614e39b039b2bea157215f559c24" true
          "ParseObjectCreate")
        ∷ []))
    ∷ (entry "addjsonvalue" "addJSONValue" (
        (place "../class_parse_object_create.html#a396da194e7cea55e5a791420cfa3d3e9" true
          "ParseObjectCreate::addJSONValue(const char *key, const char *json)")
        ∷ (place "../class_parse_object_create.html#ae6930463963df8a280177050ac91c231" true
            "ParseObjectCreate::addJSONValue(const char *key, const String &amp;json)")
        ∷ []))
    ∷ []

abbrev pub functions_1 : List SearchEntry
functions_1 =
    (entry "begin" "begin" (
      (place "../class_parse_client.html#ae5097b8b723649d6cbc009a9238ba7d4" true "ParseClient")
      ∷ []))
    ∷ []

abbrev pub functions_2 : List SearchEntry
functions_2 =
    (entry "clearsessiontoken" "clearSessionToken" (
      (place "../class_parse_client.html#a685e9c99ec9f20b705f9899c10f64176" true "ParseClient")
      ∷ []))
    ∷ (entry "close" "close" (
        (place "../class_parse_push.html#a8cf8b847119d5ff71745f7adcaf9e505" true
          "ParsePush::close()")
        ∷ (place "../class_parse_response.html#a65132729c860ac5dae2a8b577d2baff1" true
            "ParseResponse::close()")
        ∷ []))
    ∷ (entry "count" "count" (
        (place "../class_parse_response.html#ac1b5565ac916af000400e6b82582ac8a" true
          "ParseResponse")
        ∷ []))
    ∷ []

abbrev pub functions_3 : List SearchEntry
functions_3 =
    (entry "end" "end" (
      (place "../class_parse_client.html#aa7c418e4e8a16da240a87eee507ca63b" true "ParseClient")
      ∷ []))
    ∷ []

abbrev pub functions_4 : List SearchEntry
functions_4 =
    (entry "getboolean" "getBoolean" (
      (place "../class_parse_response.html#a7dbf50e42fac3f77874b3cde805da90b" true "ParseResponse")
      ∷ []))
    ∷ (entry "getdouble" "getDouble" (
        (place "../class_parse_response.html#a94b430cf9e2f5c2c5f0aae8229bdc008" true
          "ParseResponse")
        ∷ []))
    ∷ (entry "geterrorcode" "getErrorCode" (
        (place "../class_parse_response.html#afc24c31ee5fd115c2c15eeb2e472de81" true
          "ParseResponse")
        ∷ []))
    ∷ (entry "getfloatfromjson" "getFloatFromJSON" (
        (place "../class_parse_utils.html#a43a6539b67c90089772da5adb4a2cc24" true "ParseUtils")
        ∷ []))
    ∷ (entry "getinstallationid" "getInstallationId" (
        (place "../class_parse_client.html#a62061244233569123c7bbc57dc3173f0" true "ParseClient")
        ∷ []))
    ∷ (entry "getint" "getInt" (
        (place "../class_parse_response.html#accd6ffcbab68b2937e61babc09228662" true
          "ParseResponse")
        ∷ []))
    ∷ (entry "getintfromjson" "getIntFromJSON" (
        (place "../class_parse_utils.html#aab3a15b915d2504eaf0c448a92baf654" true "ParseUtils")
        ∷ []))
    ∷ (entry "getjsonbody" "getJSONBody" (
        (place "../class_parse_response.html#a4f36729ef06400907b5006e51d32900a" true
          "ParseResponse")
        ∷ []))
    ∷ (entry "getsessiontoken" "getSessionToken" (
        (place "../class_parse_client.html#ad447c906041ec4aaf331f029096722de" true "ParseClient")
        ∷ []))
    ∷ (entry "getstring" "getString" (
        (place "../class_parse_response.html#a1e2e7d5252bf98793b6f1d49004b3568" true
          "ParseResponse")
        ∷ []))
    ∷ (entry "getstringfromjson" "getStringFromJSON" (
        (place "../class_parse_utils.html#a12ad329aa86297b4fbd040f457e4dc17" true "ParseUtils")
        ∷ []))
    ∷ []

abbrev pub functions_5 : List SearchEntry
functions_5 =
    (entry "nextobject" "nextObject" (
      (place "../class_parse_response.html#ad6b1c9d00fcf27a7387d1d9da957751e" true "ParseResponse")
      ∷ []))
    ∷ (entry "nextpush" "nextPush" (
        (place "../class_parse_client.html#a83d0d717e2b9f548dc4de48f9c49458e" true "ParseClient")
        ∷ []))
    ∷ []

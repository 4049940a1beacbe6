-- ===== src/Search/Sites/Sdk/All.antt =====
-- The entries of the pages of results: `searchData` of docs/html/search/all_0.js to all_5.js, in order.
use parse_embedded_sdks.Base.{true, List, [], ◌∷◌}
use parse_embedded_sdks.Search.Page.{SearchEntry}
use parse_embedded_sdks.Search.Sites.Entry.{entry, place}

abbrev pub all_0 : List SearchEntry
all_0 =
    (entry "application_5fid_5fmax_5flen" "APPLICATION_ID_MAX_LEN"
      ((place "../parse_8h.html#afef987cd7d5dcb13ace78e5c739203db" true "parse.h") ∷ []))
    ∷ []

abbrev pub all_1 : List SearchEntry
all_1 =
    (entry "client_5fkey_5fmax_5flen" "CLIENT_KEY_MAX_LEN"
      ((place "../parse_8h.html#a99031ce313ebf12cb3d83da1e942ea88" true "parse.h") ∷ []))
    ∷ []

abbrev pub all_2 : List SearchEntry
all_2 =
    (entry "installation_5fid_5fmax_5flen" "INSTALLATION_ID_MAX_LEN"
      ((place "../parse_8h.html#a28667e1c558af9a01f05d19eca25dcb1" true "parse.h") ∷ []))
    ∷ []

abbrev pub all_3 : List SearchEntry
all_3 =
    (entry "object_5fid_5fmax_5flen" "OBJECT_ID_MAX_LEN"
      ((place "../parse_8h.html#a43c70f14c9f8e27bd8f555a8610fd9cf" true "parse.h") ∷ []))
    ∷ []

abbrev pub all_4 : List SearchEntry
all_4 =
    (entry "parse_20embedded_20c_20sdk" "Parse Embedded C SDK"
      ((place "../index.html" true "") ∷ []))
    ∷ (entry "parse_2eh" "parse.h" ((place "../parse_8h.html" true "") ∷ []))
    ∷ (entry "parseclearsessiontoken" "parseClearSessionToken"
        ((place "../parse_8h.html#a32ae41797a6a551fd0311a413f94b294" true "parse.h") ∷ []))
    ∷ (entry "parseclient" "ParseClient"
        ((place "../parse_8h.html#ae7445d5516cd7069d413a350b3119e41" true "parse.h") ∷ []))
    ∷ (entry "parsegeterrorcode" "parseGetErrorCode"
        ((place "../parse_8h.html#adff0c82bf9083c1befb02c07656d5295" true "parse.h") ∷ []))
    ∷ (entry "parsegetinstallationid" "parseGetInstallationId"
        ((place "../parse_8h.html#aa43366546613d49321c96a46c6d5a295" true "parse.h") ∷ []))
    ∷ (entry "parsegetpushsocket" "parseGetPushSocket"
        ((place "../parse_8h.html#a2de71ba30eff463d9d232e2b64ec0311" true "parse.h") ∷ []))
    ∷ (entry "parsegetsessiontoken" "parseGetSessionToken"
        ((place "../parse_8h.html#a4c82debd7046a9b4e0da41b0573701fd" true "parse.h") ∷ []))
    ∷ (entry "parseinitialize" "parseInitialize"
        ((place "../parse_8h.html#aad7b0e96f115846958f4e1f2b29e6b2b" true "parse.h") ∷ []))
    ∷ (entry "parseprocessnextpushnotification" "parseProcessNextPushNotification"
        ((place "../parse_8h.html#a2ec677433a1b24eb26ca0250f61ae385" true "parse.h") ∷ []))
    ∷ (entry "parsepushcallback" "parsePushCallback"
        ((place "../parse_8h.html#afd508ae8370e6c7e8919032fcacf8d07" true "parse.h") ∷ []))
    ∷ (entry "parserequestcallback" "parseRequestCallback"
        ((place "../parse_8h.html#aae3c7b9a43204100f702654c2393260e" true "parse.h") ∷ []))
    ∷ (entry "parserunpushloop" "parseRunPushLoop"
        ((place "../parse_8h.html#a15be1ba39b90c15dc478c70f89e093c9" true "parse.h") ∷ []))
    ∷ (entry "parsesendrequest" "parseSendRequest"
        ((place "../parse_8h.html#af8230e72d4f6c07cb16b4675003a18fe" true "parse.h") ∷ []))
    ∷ (entry "parsesetinstallationid" "parseSetInstallationId"
        ((place "../parse_8h.html#ac6ec4bdc3d75d508a68662cea24010bf" true "parse.h") ∷ []))
    ∷ (entry "parsesetpushcallback" "parseSetPushCallback"
        ((place "../parse_8h.html#a597ea71545c6e1e6e01497edd39dcece" true "parse.h") ∷ []))
    ∷ (entry "parsesetsessiontoken" "parseSetSessionToken"
        ((place "../parse_8h.html#ad1a1eab66749c2ecc3f47b7f6e279679" true "parse.h") ∷ []))
    ∷ (entry "parsestartpushservice" "parseStartPushService"
        ((place "../parse_8h.html#aaebc5ccfcf1667a66856d75a7efc30ec" true "parse.h") ∷ []))
    ∷ (entry "parsestoppushservice" "parseStopPushService"
        ((place "../parse_8h.html#ac6fcdfb6a1d04f885c3de2f7c361e3f5" true "parse.h") ∷ []))
    ∷ []

abbrev pub all_5 : List SearchEntry
all_5 =
    (entry "session_5ftoken_5fmax_5flen" "SESSION_TOKEN_MAX_LEN"
      ((place "../parse_8h.html#ace6a40c8d30d196052ab0746aa13876b" true "parse.h") ∷ []))
    ∷ []

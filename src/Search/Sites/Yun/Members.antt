-- ===== src/Search/Sites/Yun/Members.antt =====
-- The entries of the pages of results: `searchData` of docs/yun/html/search/functions_6.js to functions_a.js, in order.
use parse_embedded_sdks.Base.{true, List, [], ◌∷◌}
use parse_embedded_sdks.Search.Page.{SearchEntry}
use parse_embedded_sdks.Search.Sites.Entry.{entry, place}

abbrev pub functions_6 : List SearchEntry
functions_6 =
    (entry "orderby" "orderBy" (
      (place "../class_parse_query.html#abcb70b64088699eb2b92f9d62338d08c" true "ParseQuery") ∷ []))
    ∷ []

abbrev pub functions_7 : List SearchEntry
functions_7 =
    (entry "parseclient" "ParseClient" (
      (place "../class_parse_client.html#a63ff8b1516844dc8bb5ad42ed06c0da5" true "ParseClient")
      ∷ []))
    ∷ (entry "parsecloudfunction" "ParseCloudFunction" (
        (place "../class_parse_cloud_function.html#ae59c8ad61a4acac144c84b43b7db0333" true
          "ParseCloudFunction")
        ∷ []))
    ∷ (entry "parseobjectcreate" "ParseObjectCreate" (
        (place "../class_parse_object_create.html#a58ad91e3b7de9ee07fce6dfa7d9e99cb" true
          "ParseObjectCreate")
        ∷ []))
    ∷ (entry "parseobjectdelete" "ParseObjectDelete" (
        (place "../class_parse_object_delete.html#a8239a0107aee9c566f659a57d2b7145c" true
          "ParseObjectDelete")
        ∷ []))
    ∷ (entry "parseobjectget" "ParseObjectGet" (
        (place "../class_parse_object_get.html#a2b694290c552c349ea38179150f09b78" true
          "ParseObjectGet")
        ∷ []))
    ∷ (entry "parseobjectupdate" "ParseObjectUpdate" (
        (place "../class_parse_object_update.html#a780fb4f2a706e0b9648d7eb61215cad9" true
          "ParseObjectUpdate")
        ∷ []))
    ∷ (entry "parsequery" "ParseQuery" (
        (place "../class_parse_query.html#a413af1b059fa4be6952d5cac515f4403" true "ParseQuery")
        ∷ []))
    ∷ (entry "parserequest" "ParseRequest" (
        (place "../class_parse_request.html#a54113afd5f546382608bb2e715df759e" true "ParseRequest")
        ∷ []))
    ∷ (entry "parsetrackevent" "ParseTrackEvent" (
        (place "../class_parse_track_event.html#a2d737963ecd1b4b91c44ad4f82e15114" true
          "ParseTrackEvent")
        ∷ []))
    ∷ (entry "pushavailable" "pushAvailable" (
        (place "../class_parse_client.html#a5a2f119a0ed474ff6fc4d237b3811ef1" true "ParseClient")
        ∷ []))
    ∷ []

abbrev pub functions_8 : List SearchEntry
functions_8 =
    (entry "send" "send" (
      (place "../class_parse_object_create.html#a1c7e621bb8f39cf5a2aa021ffa1f6908" true
        "ParseObjectCreate::send()")
      ∷ (place "../class_parse_object_delete.html#aea9dcc637eb588dbadad3480d63e21be" true
          "ParseObjectDelete::send()")
      ∷ (place "../class_parse_object_get.html#a8b0cc2f15010b9bdac7d5b456ec5471c" true
          "ParseObjectGet::send()")
      ∷ (place "../class_parse_object_update.html#aef12792ac96ce3fdc8066516bb179d3c" true
          "ParseObjectUpdate::send()")
      ∷ (place "../class_parse_query.html#ab24f41950db633142e72b7b74a24f60b" true
          "ParseQuery::send()")
      ∷ (place "../class_parse_request.html#a94ae6331b50d13b098396d6d64edb925" true
          "ParseRequest::send()")
      ∷ []))
    ∷ (entry "sendrequest" "sendRequest" (
        (place "../class_parse_client.html#a9a4f874b27c0b4b021d385a62b1c6a3a" true
          "ParseClient::sendRequest(const char *httpVerb, const char *httpPath, const char *requestBody, const char *urlParams)")
        ∷ (place "../class_parse_client.html#a7f18dabea5c6e52f91c416bcd6c68973" true
            "ParseClient::sendRequest(const String &amp;httpVerb, const String &amp;httpPath, const String &amp;requestBody, const String &amp;urlParams)")
        ∷ []))
    ∷ (entry "setbuffer" "setBuffer" (
        (place "../class_parse_response.html#ab327ef0c96075549038d2b9e07b82be2" true
          "ParseResponse")
        ∷ []))
    ∷ (entry "setclassname" "setClassName" (
        (place "../class_parse_request.html#a317a43653c851029b16926b29b20a38e" true "ParseRequest")
        ∷ []))
    ∷ (entry "seteventname" "setEventName" (
        (place "../class_parse_track_event.html#a9639acbb98451b508a09c0b07419088d" true
          "ParseTrackEvent")
        ∷ []))
    ∷ (entry "setfunctionname" "setFunctionName" (
        (place "../class_parse_cloud_function.html#a0fe5b325ba052fd3eab8f775bb17d075" true
          "ParseCloudFunction")
        ∷ []))
    ∷ (entry "setinstallationid" "setInstallationId" (
        (place "../class_parse_client.html#ab2eb607c50543c9d4e5e2125dd577913" true "ParseClient")
        ∷ []))
    ∷ (entry "setjsonbody" "setJSONBody" (
        (place "../class_parse_object_create.html#ab4f6fc00da920d83931157d3e1385c72" true
          "ParseObjectCreate::setJSONBody(const char *jsonBody)")
        ∷ (place "../class_parse_object_create.html#a863a8e68391f3244e24f837a1dc4e5f8" true
            "ParseObjectCreate::setJSONBody(const String &amp;jsonBody)")
        ∷ []))
    ∷ (entry "setkeys" "setKeys" (
        (place "../class_parse_query.html#aa46f5231317defc7a7bdfcce76119612" true "ParseQuery")
        ∷ []))
    ∷ (entry "setlimit" "setLimit" (
        (place "../class_parse_query.html#a2f07b93e013e2ae0d1e35421d6b59163" true "ParseQuery")
        ∷ []))
    ∷ (entry "setobjectid" "setObjectId" (
        (place "../class_parse_request.html#ae982bf62d800ef113f7c8eb0a556ae85" true "ParseRequest")
        ∷ []))
    ∷ (entry "setsessiontoken" "setSessionToken" (
        (place "../class_parse_client.html#a86c8c25d224f8cf32094675f7e0011a6" true "ParseClient")
        ∷ []))
    ∷ (entry "setskip" "setSkip" (
        (place "../class_parse_query.html#a239d7dca72045e15ccdfa8cba948b938" true "ParseQuery")
        ∷ []))
    ∷ (entry "startpushservice" "startPushService" (
        (place "../class_parse_client.html#abe27dde51d9b0ed225d8d7b7c40ea8cd" true "ParseClient")
        ∷ []))
    ∷ (entry "stoppushservice" "stopPushService" (
        (place "../class_parse_client.html#a42656d96d7c1b1290f3331f7470a8bc4" true "ParseClient")
        ∷ []))
    ∷ []

abbrev pub functions_9 : List SearchEntry
functions_9 =
    (entry "wheredoesnotexist" "whereDoesNotExist" (
      (place "../class_parse_query.html#a0154916f6f156339ae901b1469eb5a4f" true "ParseQuery") ∷ []))
    ∷ (entry "whereequalto" "whereEqualTo" (
        (place "../class_parse_query.html#a92a0d44c79ee52d1b25f6c80fa70c695" true
          "ParseQuery::whereEqualTo(const char *key, const char *value)")
        ∷ (place "../class_parse_query.html#af62f7f2b5263c1bae1607c203eeaeaae" true
            "ParseQuery::whereEqualTo(const char *key, bool value)")
        ∷ (place "../class_parse_query.html#a6c8576302805235cd231b96f18750244" true
            "ParseQuery::whereEqualTo(const char *key, int value)")
        ∷ (place "../class_parse_query.html#aafa37b4bef8b0125947140e135de814f" true
            "ParseQuery::whereEqualTo(const char *key, double value)")
        ∷ []))
    ∷ (entry "whereexists" "whereExists" (
        (place "../class_parse_query.html#a1a7896ed55ecd4a90a9fc5d751d4ff7f" true "ParseQuery")
        ∷ []))
    ∷ (entry "wheregreaterthan" "whereGreaterThan" (
        (place "../class_parse_query.html#a9628971ef6764775a8dd1162c4565355" true
          "ParseQuery::whereGreaterThan(const char *key, int value)")
        ∷ (place "../class_parse_query.html#af7eafd34e792718867ab3c804f3593a5" true
            "ParseQuery::whereGreaterThan(const char *key, double value)")
        ∷ []))
    ∷ (entry "wheregreaterthanorequalto" "whereGreaterThanOrEqualTo" (
        (place "../class_parse_query.html#affeef69a24c11890121b4d6e3807af61" true
          "ParseQuery::whereGreaterThanOrEqualTo(const char *key, int value)")
        ∷ (place "../class_parse_query.html#a642ccb7bbacbd63b786465d6b3276dfc" true
            "ParseQuery::whereGreaterThanOrEqualTo(const char *key, double value)")
        ∷ []))
    ∷ (entry "wherelessthan" "whereLessThan" (
        (place "../class_parse_query.html#ac7d07317480fbb7c6c1ac06b949543b1" true
          "ParseQuery::whereLessThan(const char *key, int value)")
        ∷ (place "../class_parse_query.html#a00a92c633a6b50084dc05131980947cc" true
            "ParseQuery::whereLessThan(const char *key, double value)")
        ∷ []))
    ∷ (entry "wherelessthanorequalto" "whereLessThanOrEqualTo" (
        (place "../class_parse_query.html#a933747c5946c3ad045ca75ed04b95b60" true
          "ParseQuery::whereLessThanOrEqualTo(const char *key, int value)")
        ∷ (place "../class_parse_query.html#adec4cbd1a18d3305a17f8c85144d5390" true
            "ParseQuery::whereLessThanOrEqualTo(const char *key, double value)")
        ∷ []))
    ∷ (entry "wherenotequalto" "whereNotEqualTo" (
        (place "../class_parse_query.html#a973d921e93c8387f25cfa4964503e5c9" true
          "ParseQuery::whereNotEqualTo(const char *key, const char *value)")
        ∷ (place "../class_parse_query.html#a4c7dda9ae274a4da9e2a74f058ab5338" true
            "ParseQuery::whereNotEqualTo(const char *key, bool value)")
        ∷ (place "../class_parse_query.html#a246447ae403c40bf32b9a7ff891f113a" true
            "ParseQuery::whereNotEqualTo(const char *key, int value)")
        ∷ (place "../class_parse_query.html#a9d45e4448a4d64567b586bdb1d76ad4e" true
            "ParseQuery::whereNotEqualTo(const char *key, double value)")
        ∷ []))
    ∷ []

abbrev pub functions_a : List SearchEntry
functions_a =
    (entry "_7eparserequest" "~ParseRequest" (
      (place "../class_parse_request.html#a1737a36f832f1870da5fa75f1c2b8a59" true "ParseRequest")
      ∷ []))
    ∷ []

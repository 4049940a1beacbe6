-- ===== src/Search/Sites/Yun/Sections.antt =====
-- The entries of the pages of results: `searchData` of docs/yun/html/search/classes_0.js to variables_0.js, in order.
use parse_embedded_sdks.Base.{true, List, [], ◌∷◌}
use parse_embedded_sdks.Search.Page.{SearchEntry}
use parse_embedded_sdks.Search.Sites.Entry.{entry, place}

abbrev pub classes_0 : List SearchEntry
classes_0 =
    (entry "parseclient" "ParseClient" ((place "../class_parse_client.html" true "") ∷ []))
    ∷ (entry "parsecloudfunction" "ParseCloudFunction"
        ((place "../class_parse_cloud_function.html" true "") ∷ []))
    ∷ (entry "parseobjectcreate" "ParseObjectCreate"
        ((place "../class_parse_object_create.html" true "") ∷ []))
    ∷ (entry "parseobjectdelete" "ParseObjectDelete"
        ((place "../class_parse_object_delete.html" true "") ∷ []))
    ∷ (entry "parseobjectget" "ParseObjectGet"
        ((place "../class_parse_object_get.html" true "") ∷ []))
    ∷ (entry "parseobjectupdate" "ParseObjectUpdate"
        ((place "../class_parse_object_update.html" true "") ∷ []))
    ∷ (entry "parsepush" "ParsePush" ((place "../class_parse_push.html" true "") ∷ []))
    ∷ (entry "parsequery" "ParseQuery" ((place "../class_parse_query.html" true "") ∷ []))
    ∷ (entry "parserequest" "ParseRequest" ((place "../class_parse_request.html" true "") ∷ []))
    ∷ (entry "parseresponse" "ParseResponse" ((place "../class_parse_response.html" true "") ∷ []))
    ∷ (entry "parsetrackevent" "ParseTrackEvent"
        ((place "../class_parse_track_event.html" true "") ∷ []))
    ∷ (entry "parseutils" "ParseUtils" ((place "../class_parse_utils.html" true "") ∷ []))
    ∷ []

abbrev pub files_0 : List SearchEntry
files_0 =
    (entry "parse_2eh" "Parse.h" ((place "../_parse_8h.html" true "") ∷ []))
    ∷ (entry "parseclient_2eh" "ParseClient.h" ((place "../_parse_client_8h.html" true "") ∷ []))
    ∷ (entry "parsecloudfunction_2eh" "ParseCloudFunction.h"
        ((place "../_parse_cloud_function_8h.html" true "") ∷ []))
    ∷ (entry "parseobjectcreate_2eh" "ParseObjectCreate.h"
        ((place "../_parse_object_create_8h.html" true "") ∷ []))
    ∷ (entry "parseobjectdelete_2eh" "ParseObjectDelete.h"
        ((place "../_parse_object_delete_8h.html" true "") ∷ []))
    ∷ (entry "parseobjectget_2eh" "ParseObjectGet.h"
        ((place "../_parse_object_get_8h.html" true "") ∷ []))
    ∷ (entry "parseobjectupdate_2eh" "ParseObjectUpdate.h"
        ((place "../_parse_object_update_8h.html" true "") ∷ []))
    ∷ (entry "parsepush_2eh" "ParsePush.h" ((place "../_parse_push_8h.html" true "") ∷ []))
    ∷ (entry "parsequery_2eh" "ParseQuery.h" ((place "../_parse_query_8h.html" true "") ∷ []))
    ∷ (entry "parserequest_2eh" "ParseRequest.h" ((place "../_parse_request_8h.html" true "") ∷ []))
    ∷ (entry "parseresponse_2eh" "ParseResponse.h"
        ((place "../_parse_response_8h.html" true "") ∷ []))
    ∷ (entry "parsetrackevent_2eh" "ParseTrackEvent.h"
        ((place "../_parse_track_event_8h.html" true "") ∷ []))
    ∷ (entry "parseutils_2eh" "ParseUtils.h" ((place "../_parse_utils_8h.html" true "") ∷ []))
    ∷ []

abbrev pub pages_0 : List SearchEntry
pages_0 =
    (entry "parse_20arduino_20yun_20sdk" "Parse Arduino Yun SDK"
      ((place "../index.html" true "") ∷ []))
    ∷ []

abbrev pub variables_0 : List SearchEntry
variables_0 =
    (entry "parse" "Parse" (
      (place "../_parse_client_8h.html#a4ab6a3466993c967326e8663a3d7815d" true "ParseClient.cpp")
      ∷ []))
    ∷ []

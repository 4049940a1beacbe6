-- ===== src/Json/Tests.antt =====
-- The scans of common/simplejson.c on concrete texts.
use parse_embedded_sdks.Base.{
  ◌≡◌, ◌≢◌, refl, false, true, none, some, [], ◌∷◌, ◌++◌, Bytes, codes, arith,
}
use parse_embedded_sdks.Json.Frame.{found, message, get_push_json, find_second_json}
use parse_embedded_sdks.Json.Frame.Laws.{
  get_push_json_whole, get_push_json_partial, find_second_json_message,
}
use parse_embedded_sdks.Json.Messages.{
  char, escape, Body, empty, plain, quoted, nested, render, IsBody,
}
use parse_embedded_sdks.Json.Processor.{Round, Extraction, copied, search, simple_json_processor}
use parse_embedded_sdks.Json.Processor.Bounds.{Writes, simple_json_processor-Writes}
use parse_embedded_sdks.Json.Processor.Fuel.{search-ne-out_of_fuel}
use parse_embedded_sdks.Json.Processor.Safety.{
  InBounds, simple_json_processor-InBounds, simple_json_processor_overrun,
}
use parse_embedded_sdks.Json.Processor.Values.{
  simple_json_processor-quoted, simple_json_processor-unquoted,
}

-- A C string in an allocation of its own.
abbrev c_string : Bytes → Bytes
c_string s = s ++ 0 ∷ []

search-ne-out_of_fuel_example :
    search 3 (codes "a") false 0 (codes "{" ++ 0 ∷ []) ≢ Round.out_of_fuel
search-ne-out_of_fuel_example =
    search-ne-out_of_fuel 3 (codes "a") false 0 (codes "{" ++ 0 ∷ []) (omega arith)

simple_json_processor-Writes_example :
    Writes 3
      (simple_json_processor (some (c_string (codes "{\"a\":12345}"))) (some (codes "a")) true 4)
simple_json_processor-Writes_example =
    simple_json_processor-Writes (some (c_string (codes "{\"a\":12345}"))) (some (codes "a")) true 4

simple_json_processor-InBounds_example :
    InBounds
      (simple_json_processor (some (codes "{\"a\":1" ++ b'}' ∷ 0 ∷ [])) (some (codes "a")) true 4)
simple_json_processor-InBounds_example =
    simple_json_processor-InBounds (codes "{\"a\":1") (codes "a") true 4 [] (omega arith)
      (omega arith)

simple_json_processor_overrun_example :
    simple_json_processor (some (codes "{\"" ++ codes "a" ++ 0 ∷ [])) (some (codes "a")) true 4
    ≡ Extraction.overrun
simple_json_processor_overrun_example =
    simple_json_processor_overrun b'a' [] (codes "\"") true 4 (omega arith) (omega arith)
      (refl, (refl, tt))

simple_json_processor-quoted_example :
    simple_json_processor (some (codes "{\"a\": \"xyz\"}" ++ 0 ∷ [])) (some (codes "a")) true 3
    ≡ copied (codes "xy") true
simple_json_processor-quoted_example =
    simple_json_processor-quoted b'a' [] (codes "\"") [] (codes " ") (codes "xyz")
      (codes "}" ++ 0 ∷ []) 3 (omega arith) (omega arith) tt (ground arith) (ground arith)
      (refl, (refl, tt))

simple_json_processor-unquoted_example :
    simple_json_processor (some (codes "{\"a\": 17}" ++ 0 ∷ [])) (some (codes "a")) true 9
    ≡ copied (codes "17") true
simple_json_processor-unquoted_example =
    simple_json_processor-unquoted b'a' [] (codes "\"") [] (codes " ") b'1' (codes "7") b'}'
      (0 ∷ []) 9 (omega arith) (omega arith) tt (ground arith) (ground arith) (ground arith)
      (ground arith) (refl, (refl, tt))

-- `{"a":{"\""}}`.
abbrev tree : Body
tree = quoted (char b'a' ∷ []) (plain b':' (nested (quoted (escape b'"' ∷ []) empty) empty))

tree-IsBody : IsBody tree
tree-IsBody = ground arith

get_push_json_whole_example :
    get_push_json (codes "\n" ++ (render tree ++ codes "\n{")) 15 ≡ message 1 (some 12)
get_push_json_whole_example =
    get_push_json_whole 15 (codes "\n") tree (codes "\n{") (ground arith) tree-IsBody (omega arith)

get_push_json_partial_example :
    get_push_json (codes "\n" ++ (render tree ++ codes "\n{")) 9 ≡ message 1 none
get_push_json_partial_example =
    get_push_json_partial 9 (codes "\n") tree (codes "\n{") (ground arith) tree-IsBody (omega arith)
      (omega arith)

find_second_json_message_example :
    find_second_json
      ([] ++ (render tree ++ (codes "\n" ++ (render empty ++ (codes "x" ++ 0 ∷ [])))))
    ≡ found 1 (codes "{}x" ++ 0 ∷ [])
find_second_json_message_example =
    find_second_json_message [] tree (codes "\n") empty (codes "x") [] tt tree-IsBody (ground arith)
      tt (omega arith)

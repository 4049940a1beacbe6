-- ===== src/Json/Messages.antt =====
-- The messages that the scans of common/simplejson.c are to find: an object as a tree of braces and
-- strings, and its text.
use parse_embedded_sdks.Base.{ℕ, ◌≢◌, List, [], ◌∷◌, ◌++◌, Bytes}

-- A byte of a string, or an escaped one.
pub data Item : Type 0 where
  char escape : ℕ → Item

-- What stands between two braces.
pub data Body : Type 0 where
  empty : Body
  plain : ℕ → Body → Body
  quoted : List Item → Body → Body
  nested : Body → Body → Body

abbrev pub render_items : List Item → Bytes
render_items [] = []
render_items (char c ∷ items) = c ∷ render_items items
render_items (escape c ∷ items) = b'\\' ∷ c ∷ render_items items

abbrev pub render_body : Body → Bytes
render_body empty = []
render_body (plain c b) = c ∷ render_body b
render_body (quoted items b) = b'"' ∷ (render_items items ++ (b'"' ∷ render_body b))
render_body (nested inner b) = b'{' ∷ (render_body inner ++ (b'}' ∷ render_body b))

-- The text of a message.
abbrev pub render : Body → Bytes
render b = b'{' ∷ (render_body b ++ b'}' ∷ [])

-- The bytes that stand for themselves inside and outside of a string.
abbrev pub AreItems : List Item → Type 0
AreItems [] = Unit
AreItems (char c ∷ items) = (c ≢ 0) × (c ≢ b'"') × (c ≢ b'\\') × AreItems items
AreItems (escape c ∷ items) = (c ≢ 0) × AreItems items

abbrev pub IsPlain : ℕ → Type 0
IsPlain c = (c ≢ 0) × (c ≢ b'"') × (c ≢ b'{') × (c ≢ b'}')

abbrev pub IsBody : Body → Type 0
IsBody empty = Unit
IsBody (plain c b) = IsPlain c × IsBody b
IsBody (quoted items b) = AreItems items × IsBody b
IsBody (nested inner b) = IsBody inner × IsBody b

-- A byte between messages: neither NUL, a quote nor an open brace.
abbrev pub IsGap : ℕ → Type 0
IsGap c = (c ≢ 0) × (c ≢ b'"') × (c ≢ b'{')

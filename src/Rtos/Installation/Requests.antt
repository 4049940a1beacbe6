-- ===== src/Rtos/Installation/Requests.antt =====
-- The requests for an installation are sent behind those sent before, and save nothing.
use parse_embedded_sdks.Base.{
  ◌+◌, ◌≡◌, refl, sym, ap, ◌∙◌, Bool, true, false, Bool-cases, inl, inr, Option, none, some, List,
  [], ◌∷◌, ◌++◌, append_assoc, append-nil, Bytes, codes, if◌then◌else◌, ◌-◌, drop, length,
  replicate,
}
use parse_embedded_sdks.Search.Ids.{same_text}
use parse_embedded_sdks.Json.Processor.{
  Extraction, overrun, missing, present, copied, simple_json_processor,
}
use parse_embedded_sdks.Rtos.Send.{Answer}
use parse_embedded_sdks.Rtos.Installation.{
  Device, World, Request, ask, is_success, with_installation_id, with_object_id, set_object_id,
  set_installation, both_ids, field_of, starts_object, installation_id_max_len, object_id_max_len,
  first_result, ensure_id, create_content, create_installation_callback,
  get_installation_by_id_callback, create_installation, then_create,
}

-- A request is answered with a status from 200 to 299.
abbrev pub IsAnswered : World → Type 0
IsAnswered w = (r : Request) × (is_success (w.answer r) ≡ true)

-- A function of an installation that faults, which takes `F`, or sends requests behind those sent and
-- saves nothing.
abbrev pub Follows : Type 0 → Device → Option Device → Type 0
Follows F d none = F
Follows F d (some d') =
    (more : List Request) × (d'.requests ≡ d.requests ++ more) × (d'.saves ≡ d.saves)

none_sent :
    (F : Type 0) (d d' : Device)
    → d'.requests ≡ d.requests
    → d'.saves ≡ d.saves
    → Follows F d (some d')
none_sent F d d' h k = ([], h ∙ sym (append-nil d.requests), k)

if-Follows :
    (F : Type 0) (b : Bool) (d : Device) (x y : Option Device)
    → (b ≡ true → Follows F d x)
    → Follows F d y
    → Follows F d (if b then x else y)
if-Follows F true d x y h k = h refl
if-Follows F false d x y h k = k

both_set-Follows :
    (F : Type 0) (id object_id : Option Bytes) (d : Device)
    → F
    → Follows F d (set_installation id (set_object_id d object_id))
both_set-Follows F id none d f = f
both_set-Follows F none (some o) d f = f
both_set-Follows F (some i) (some o) d f =
    none_sent F d (with_installation_id i (with_object_id o d)) refl refl

both_ids-Follows :
    (F : Type 0) (json : Option Bytes) (d : Device) → F → Follows F d (both_ids json d)
both_ids-Follows F json d f =
    both_set-Follows F
      (field_of d.client.installation_id (
        simple_json_processor json (some (codes "installationId")) true
          (installation_id_max_len + 1)))
      (field_of d.installation_object_id
        (simple_json_processor json (some (codes "objectId")) true (object_id_max_len + 1)))
      d f

first_result-Follows :
    (F : Type 0) (e : Extraction) (d : Device) → F → Follows F d (first_result e d)
first_result-Follows F overrun d f = f
first_result-Follows F missing d f = none_sent F d d refl refl
first_result-Follows F present d f = none_sent F d d refl refl
first_result-Follows F (copied results false) d f = none_sent F d d refl refl
first_result-Follows F (copied results true) d f =
    let p = drop 1 (results ++ replicate (400 - length results) 0) in
    if-Follows F (starts_object p) d (both_ids (some p) d) (some d)
      (λ _. both_ids-Follows F (some p) d f) (none_sent F d d refl refl)

pub by_id_callback-Follows :
    (a : Answer) (d : Device)
    → Follows (is_success a ≡ true) d (get_installation_by_id_callback a d)
unfolding get_installation_by_id_callback
by_id_callback-Follows a d =
    let e = simple_json_processor a.body (some (codes "results")) true 400 in
    if-Follows (is_success a ≡ true) (is_success a) d (first_result e d)
      (some (with_object_id [] d)) (first_result-Follows (is_success a ≡ true) e d)
      (none_sent (is_success a ≡ true) d (with_object_id [] d) refl refl)

set_object_id-Follows :
    (F : Type 0) (id : Option Bytes) (d : Device) → F → Follows F d (set_object_id d id)
set_object_id-Follows F none d f = f
set_object_id-Follows F (some id) d f = none_sent F d (with_object_id id d) refl refl

create_callback-Follows :
    (a : Answer) (d : Device) → Follows (is_success a ≡ true) d (create_installation_callback a d)
unfolding create_installation_callback
create_callback-Follows a d =
    let id =
      field_of d.installation_object_id
        (simple_json_processor a.body (some (codes "objectId")) true (object_id_max_len + 1)) in
    if-Follows (is_success a ≡ true) (is_success a) d (set_object_id d id)
      (some (with_object_id [] d)) (set_object_id-Follows (is_success a ≡ true) id d)
      (none_sent (is_success a ≡ true) d (with_object_id [] d) refl refl)

Follows-trans :
    (F : Type 0) (d d' : Device) (more : List Request) (o : Option Device)
    → d'.requests ≡ d.requests ++ more
    → d'.saves ≡ d.saves
    → Follows F d' o
    → Follows F d o
Follows-trans F d d' more none h k f = f
Follows-trans F d d' more (some x) h k (later, p, q) =
    (more ++ later, p ∙ ap (λ l. l ++ later) h ∙ append_assoc d.requests more later, q ∙ k)

ensure_id-same :
    (w : World) (d : Device)
    → ((ensure_id w d).requests ≡ d.requests) × ((ensure_id w d).saves ≡ d.saves)
ensure_id-same w d = elim (Bool-cases (same_text d.client.installation_id [])) [
  | inl e ↦ rw e (refl, refl)
  | inr e ↦ rw e (refl, refl)
]

IsAnswered-Follows :
    (w : World) (r : Request) (d : Device) (o : Option Device)
    → Follows (is_success (w.answer r) ≡ true) d o
    → Follows (IsAnswered w) d o
IsAnswered-Follows w r d none h = (r, h)
IsAnswered-Follows w r d (some d') h = h

-- A request, and what its callback does.
pub ask-Follows :
    (w : World) (r : Request) (callback : Answer → Device → Option Device) (d : Device)
    → ((a : Answer) (d' : Device) → Follows (is_success a ≡ true) d' (callback a d'))
    → Follows (IsAnswered w) (record d { requests = d.requests ++ r ∷ [] }) (ask w r callback d)
ask-Follows w r callback d h =
    let d' = record d { requests = d.requests ++ r ∷ [] } in
    IsAnswered-Follows w r d' (callback (w.answer r) d') (h (w.answer r) d')

create_installation-Follows :
    (w : World) (d : Device) → Follows (IsAnswered w) d (create_installation w d)
unfolding create_installation
create_installation-Follows w d =
    let d' = ensure_id w d in
    let r : Request = record {
      client = d'.client;
      add_installation = false;
      verb = codes "POST";
      path = codes "/1/installations";
      body = create_content d'.client.installation_id;
    } in
    let (same, saves) = ensure_id-same w d in
    let asked = ask w r create_installation_callback d' in
    if-Follows (IsAnswered w) (same_text d.installation_object_id []) d asked (some d)
      (λ _.
        Follows-trans (IsAnswered w) d (record d' { requests = d'.requests ++ r ∷ [] }) (r ∷ [])
          asked (ap (λ l. l ++ r ∷ []) same) saves
          (ask-Follows w r create_installation_callback d' create_callback-Follows))
      (none_sent (IsAnswered w) d d refl refl)

pub then_create-Follows :
    (w : World) (d : Device) (o : Option Device)
    → Follows (IsAnswered w) d o
    → Follows (IsAnswered w) d (then_create w o)
then_create-Follows w d none h = h
then_create-Follows w d (some d') (more, requests, saves) =
    Follows-trans (IsAnswered w) d d' more (create_installation w d') requests saves
      (create_installation-Follows w d')

-- ===== src/Capture/Document.antt =====
-- The message's text (makeJson of src/work.cpp): the document that it builds with the calls of cJSON
-- (work/cjson), and what a reader of the document finds in it. The text itself is cJSON's.
use aiotc.Prelude.{
  Bool, true, false, ◌&&◌, ◌||◌, Option, none, some, [], ◌∷◌, ℤ, if◌then◌else◌, ◌>>=◌,
}
use aiotc.Cstring.{Text, codes, strcmp_eq}
use aiotc.Capture.{Rect, OutJson}

-- What the calls cJSON_Create... and cJSON_Add... build.
mutual
  pub data Doc (F : Type 0) : Type 0 where
    string : Text → Doc F
    int : ℤ → Doc F
    float : F → Doc F
    object : Fields F → Doc F
    array : Docs F → Doc F

  pub data Docs (F : Type 0) : Type 0 where
    nil : Docs F
    cons : Doc F → Docs F → Docs F

  pub data Fields (F : Type 0) : Type 0 where
    empty : Fields F
    field : Text → Doc F → Fields F → Fields F

-- Whether a text of the message is not empty.
abbrev pub given : Text → Bool
given [] = false
given (c ∷ t) = true

module _ {F : Type 0} where
  -- A field that is added under a condition.
  abbrev add : Bool → Text → Doc F → Fields F → Fields F
  add true name d rest = field name d rest
  add false name d rest = rest

  abbrev add_rect : Rect F → Doc F
  add_rect r = object (
      field (codes "x") (float r.x) (
        field (codes "y") (float r.y)
          (field (codes "w") (float r.w) (field (codes "h") (float r.h) empty))))

  -- An object with its rectangle and its URL, and more fields.
  abbrev part : Text → Rect F → Fields F → Doc F
  part url r more =
      object (field (codes "rect") (add_rect r) (field (codes "url") (string url) more))

  unfoldable person_of : OutJson F → Docs F
  person_of j =
      if given j.face_url || given j.person_body_url
      then cons
          (object (
            add (given j.face_url) (codes "face") (part j.face_url j.face_rect empty) (
              add (given j.person_body_url) (codes "body")
                (part j.person_body_url j.person_body_rect empty) empty)))
          nil
      else nil

  unfoldable veh_of : OutJson F → Docs F
  veh_of j =
      if given j.veh_body_url || given j.plate_url
      then cons
          (object (
            add (given j.veh_body_url) (codes "body") (part j.veh_body_url j.veh_body_rect empty) (
              add (given j.plate_url) (codes "plate")
                (part j.plate_url j.plate_rect (
                  add (given j.plate_no) (codes "plateNo") (string j.plate_no)
                    (add (given j.plate_color) (codes "color") (string j.plate_color) empty)))
                empty)))
          nil
      else nil

  -- makeJson up to cJSON_Print
  unfoldable pub make_json : OutJson F → Doc F
  unfolding person_of veh_of
  make_json j = object (
      field (codes "msgType") (string j.msg_type) (
        field (codes "data")
          (object (
            field (codes "id") (int j.id) (
              field (codes "timestamp") (int j.timestamp) (
                field (codes "sceneImg")
                  (object (add (given j.scene_url) (codes "url") (string j.scene_url) empty))
                  (field (codes "person") (array (person_of j))
                    (field (codes "veh") (array (veh_of j)) empty))))))
          empty))

  -- A reader of such documents.
  abbrev find : Text → Fields F → Option (Doc F)
  find name empty = none
  find name (field n d rest) = if strcmp_eq n name then some d else find name rest

  abbrev get : Text → Doc F → Option (Doc F)
  get name (object fs) = find name fs
  get name d = none

  abbrev first : Doc F → Option (Doc F)
  first (array (cons d ds)) = some d
  first d = none

  abbrev read_string : Doc F → Option Text
  read_string (string t) = some t
  read_string d = none

  abbrev read_int : Doc F → Option ℤ
  read_int (int n) = some n
  read_int d = none

  abbrev read_float : Doc F → Option F
  read_float (float f) = some f
  read_float d = none

  abbrev read_rect : Doc F → Option (Rect F)
  read_rect d = do
    dx ← get (codes "x") d
    x ← read_float dx
    dy ← get (codes "y") d
    y ← read_float dy
    dw ← get (codes "w") d
    w ← read_float dw
    dh ← get (codes "h") d
    h ← read_float dh
    some (record { x = x; y = y; w = w; h = h })

  abbrev string_at : Text → Doc F → Option Text
  string_at name d = do v ← get name d; read_string v

  -- The URL and the rectangle of a part of the first element of an array.
  abbrev read_part : Text → Text → Doc F → Option (Text × Rect F)
  read_part list name d = do
    es ← get list d
    e ← first es
    p ← get name e
    url ← string_at (codes "url") p
    dr ← get (codes "rect") p
    r ← read_rect dr
    some (url, r)

  abbrev read_plate : Text → Doc F → Option Text
  read_plate name d = do
    es ← get (codes "veh") d
    e ← first es
    p ← get (codes "plate") e
    string_at name p

-- What a reader makes of a document.
pub record Message (F : Type 0) : Type 0 where
  pub msg_type : Option Text
  pub id : Option ℤ
  pub timestamp : Option ℤ
  pub scene : Option Text
  pub face : Option (Text × Rect F)
  pub person_body : Option (Text × Rect F)
  pub veh_body : Option (Text × Rect F)
  pub plate : Option (Text × Rect F)
  pub plate_no : Option Text
  pub plate_color : Option Text

module _ {F : Type 0} where
  abbrev read_data : Option Text → Doc F → Message F
  read_data msg_type d = record {
    msg_type = msg_type;
    id = (do v ← get (codes "id") d; read_int v);
    timestamp = (do v ← get (codes "timestamp") d; read_int v);
    scene = (do v ← get (codes "sceneImg") d; string_at (codes "url") v);
    face = read_part (codes "person") (codes "face") d;
    person_body = read_part (codes "person") (codes "body") d;
    veh_body = read_part (codes "veh") (codes "body") d;
    plate = read_part (codes "veh") (codes "plate") d;
    plate_no = read_plate (codes "plateNo") d;
    plate_color = read_plate (codes "color") d;
  }

  abbrev pub read_message : Doc F → Option (Message F)
  read_message d = do
    body ← get (codes "data") d
    some (read_data (string_at (codes "msgType") d) body)

  -- A URL with its rectangle, where the URL is not empty.
  abbrev shown : Text → Rect F → Option (Text × Rect F)
  shown url r = if given url then some (url, r) else none

  -- What a message should tell its reader.
  abbrev pub message_of : OutJson F → Message F
  message_of j = record {
    msg_type = some j.msg_type;
    id = some j.id;
    timestamp = some j.timestamp;
    scene = if given j.scene_url then some j.scene_url else none;
    face = shown j.face_url j.face_rect;
    person_body = shown j.person_body_url j.person_body_rect;
    veh_body = shown j.veh_body_url j.veh_body_rect;
    plate = shown j.plate_url j.plate_rect;
    plate_no = if given j.plate_url && given j.plate_no then some j.plate_no else none;
    plate_color = if given j.plate_url && given j.plate_color then some j.plate_color else none;
  }

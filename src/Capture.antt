-- ===== src/Capture.antt =====
-- From the captures of a GA/T 1400 camera to the message that is sent out: gat1400_capture_callback of
-- src/gat1400/gat1400.cpp. The vendor's library (work/gat1400), the C library's time and rand(), and the
-- arithmetic of floating point are parameters.
pub mod Urls
pub mod Document
use aiotc.Prelude.{
  ℕ, ◌+◌, ◌≡◌, Bool, true, false, Option, none, some, List, [], ◌∷◌, ◌++◌, ℤ, pos, negsuc, eq_ℤ,
  succ, take, if◌then◌else◌,
}
use aiotc.Cstring.{Text, codes, strncmp_eq}
use aiotc.Rest.{digits, decimal}

-- Rectt
pub record Rect (F : Type 0) : Type 0 where
  pub x : F
  pub y : F
  pub w : F
  pub h : F

-- outJsonParams; `faceQuality` is never read.
pub record OutJson (F : Type 0) : Type 0 where
  pub msg_type : Text
  pub id : ℤ
  pub timestamp : ℤ
  pub scene_url : Text
  pub face_url : Text
  pub face_rect : Rect F
  pub person_body_url : Text
  pub person_body_rect : Rect F
  pub plate_no : Text
  pub plate_color : Text
  pub plate_url : Text
  pub plate_rect : Rect F
  pub veh_body_url : Text
  pub veh_body_rect : Rect F

-- SubImageInfo, with what rand() returns when it is parsed, and what writeFile does with it: the number
-- of bytes that fwrite takes, or none where the file does not open.
pub record Image : Type 0 where
  pub kind : Text
  pub shot_time : Text
  pub bytes : Text
  pub randnum : ℕ
  pub accepts : Option ℕ

-- What the callback reads of a Face, Person, MotorVehicle or NonMotorVehicle.
pub record Item : Type 0 where
  pub left_top_x : ℤ
  pub left_top_y : ℤ
  pub right_btm_x : ℤ
  pub right_btm_y : ℤ
  pub shot_time : Text
  pub images : List Image

-- GAT1400_DATATYPE, or another number.
pub data DataType : Type 0 where
  face person veh nonmotor unsupported : DataType

-- What the names of the images are made of, and the parameters.
pub record CaptureEnv (F : Type 0) : Type 0 where
  pub workdir : Text
  pub date : Text
  pub local_ip : Text
  pub http_port : ℤ
  pub obj_id : ℤ
  -- `(a - b)/1000.0` of two numbers, as a float
  pub per_mille : ℤ → ℤ → F
  -- what strptime and mktime make of a time that is not empty
  pub mktime : Text → ℤ

-- writeFile: the file that it leaves.
abbrev pub write_file : Text → Text → Option ℕ → List (Text × Text)
write_file file_name buf none = []
write_file file_name buf (some n) = (file_name, take n buf) ∷ []

-- The message in the making, and the files written, with their bytes, in order.
pub record Capture (F : Type 0) : Type 0 where
  pub json : OutJson F
  pub files : List (Text × Text)

-- The URL of a message that an image goes to, by its type.
pub data Slot : Type 0 where
  scene_slot face_slot body_slot veh_slot : Slot

unfoldable pub slot_of : Text → Option Slot
unfolding strncmp_eq
slot_of kind =
    if strncmp_eq 12 kind (codes "14")
    then some scene_slot
    else if strncmp_eq 12 kind (codes "11")
    then some face_slot
    else if strncmp_eq 12 kind (codes "10")
    then some body_slot
    else if strncmp_eq 12 kind (codes "01")
    then some scene_slot
    else if strncmp_eq 12 kind (codes "02")
    then some veh_slot
    else if strncmp_eq 12 kind (codes "12")
    then some body_slot
    else none

-- `strncpy` of a URL to its place.
abbrev pub set_url : {F : Type 0} → Option Slot → Text → OutJson F → OutJson F
set_url none url j = j
set_url (some scene_slot) url j = record j { scene_url = url }
set_url (some face_slot) url j = record j { face_url = url }
set_url (some body_slot) url j = record j { person_body_url = url }
set_url (some veh_slot) url j = record j { veh_body_url = url }

-- `printf("%lld")`
abbrev decimal_long : ℤ → Text
decimal_long (pos n) = digits 19 n
decimal_long (negsuc n) = b'-' ∷ digits 19 (n + 1)

module _ {F : Type 0} (env : CaptureEnv F) where
  open env use {workdir, date, local_ip, http_port, obj_id, per_mille, mktime}

  -- gat1400Timestamp
  unfoldable pub gat1400_timestamp : Text → ℤ
  gat1400_timestamp [] = pos 0
  gat1400_timestamp (c ∷ time) = mktime (c ∷ time)

  -- The part of the two formats of parseImage that is the same: "%s/%d/%d_%lld_0_%s_%d.jpg".
  unfoldable pub image_name : (frame_id : ℤ) → (timestamp : ℤ) → Image → Text
  unfolding digits decimal
  image_name frame_id timestamp img =
      date
      ++ codes "/"
      ++ decimal obj_id
      ++ codes "/"
      ++ decimal frame_id
      ++ codes "_"
      ++ decimal_long timestamp
      ++ codes "_0_"
      ++ img.kind
      ++ codes "_"
      ++ decimal (pos img.randnum)
      ++ codes ".jpg"

  -- The file and the URL of a name, cut by `snprintf` to a buffer of 512 bytes.
  unfoldable pub image_path : Text → Text
  image_path name = take 511 (workdir ++ codes "/webpages/img/" ++ name)

  unfoldable pub image_url : Text → Text
  unfolding digits decimal
  image_url name =
      take 511
        (codes "http://" ++ local_ip ++ codes ":" ++ decimal http_port ++ codes "/img/" ++ name)

  -- parseImage
  unfoldable pub parse_image : (frame_id : ℤ) → Capture F → Image → Capture F
  unfolding gat1400_timestamp image_name image_path image_url slot_of
  parse_image frame_id c img =
      let timestamp =
        if eq_ℤ c.json.timestamp (pos 0)
        then gat1400_timestamp img.shot_time
        else c.json.timestamp in
      let name = image_name frame_id timestamp img in
      record {
        json =
            set_url (slot_of img.kind) (image_url name)
              (record (c.json) { timestamp = timestamp; id = obj_id });
        files = c.files ++ write_file (image_path name) img.bytes img.accepts;
      }

  -- ga1400traverseQueue with parseImage, which returns 0 always
  unfoldable pub parse_images : (frame_id : ℤ) → Capture F → List Image → Capture F
  unfolding parse_image
  parse_images frame_id c [] = c
  parse_images frame_id c (img ∷ imgs) = parse_images frame_id (parse_image frame_id c img) imgs

  abbrev rect_of : Item → Rect F
  rect_of i = record {
    x = per_mille i.left_top_x (pos 0);
    y = per_mille i.left_top_y (pos 0);
    w = per_mille i.right_btm_x i.left_top_x;
    h = per_mille i.right_btm_y i.left_top_y;
  }

  -- What parseFaceList, parsePersonList, parseVehList and parseNonMotorList set before the images.
  unfoldable pub set_item : DataType → Item → OutJson F → OutJson F
  unfolding gat1400_timestamp
  set_item face i j = record j { face_rect = rect_of i; timestamp = gat1400_timestamp i.shot_time }
  set_item person i j = record j {
    person_body_rect = rect_of i;
    timestamp = gat1400_timestamp i.shot_time;
  }
  set_item veh i j = record j { veh_body_rect = rect_of i }
  set_item nonmotor i j = record j { person_body_rect = rect_of i }
  set_item unsupported i j = j

  -- ga1400traverseQueue with one of these
  unfoldable pub parse_list : DataType → (frame_id : ℤ) → Capture F → List Item → Capture F
  unfolding set_item parse_images
  parse_list kind frame_id c [] = c
  parse_list kind frame_id c (i ∷ items) =
      parse_list kind frame_id
        (parse_images frame_id (record c { json = set_item kind i c.json }) i.images) items

  abbrev zero_rect : Rect F
  zero_rect = record {
    x = per_mille (pos 0) (pos 0);
    y = per_mille (pos 0) (pos 0);
    w = per_mille (pos 0) (pos 0);
    h = per_mille (pos 0) (pos 0);
  }

  -- The message after `memset`, with its type and the object's id, and no file.
  abbrev pub cleared : Capture F
  cleared = record {
    json = record {
      msg_type = codes "common";
      id = obj_id;
      timestamp = pos 0;
      scene_url = [];
      face_url = [];
      face_rect = zero_rect;
      person_body_url = [];
      person_body_rect = zero_rect;
      plate_no = [];
      plate_color = [];
      plate_url = [];
      plate_rect = zero_rect;
      veh_body_url = [];
      veh_body_rect = zero_rect;
    };
    files = [];
  }

  -- gat1400_capture_callback up to makeJson, with the frame's number as it was: the new number; and the
  -- message and the files, where the data type is supported.
  unfoldable pub capture : DataType → (frame_id : ℤ) → List Item → ℤ × Option (Capture F)
  unfolding parse_list
  capture face frame_id items =
      (succ frame_id, some (parse_list face (succ frame_id) cleared items))
  capture person frame_id items =
      (succ frame_id, some (parse_list person (succ frame_id) cleared items))
  capture veh frame_id items = (succ frame_id, some (parse_list veh (succ frame_id) cleared items))
  capture nonmotor frame_id items =
      (succ frame_id, some (parse_list nonmotor (succ frame_id) cleared items))
  capture unsupported frame_id items = (succ frame_id, none)

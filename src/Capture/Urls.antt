-- ===== src/Capture/Urls.antt =====
-- The URLs of a message and the files that they name (src/gat1400/gat1400.cpp).
use aiotc.Prelude.{
  ◌≡◌, refl, sym, ap, ◌∙◌, Bool, true, false, Option, none, some, List, [], ◌∷◌, ◌++◌, map, ℤ, pos,
  succ, eq_ℤ, arith, if◌then◌else◌,
}
use mathlib.Core.List.{append-nil, append_assoc, map-append}
use aiotc.Cstring.{Text}
use aiotc.Capture.{
  OutJson, Image, Item, DataType, face, person, veh, nonmotor, unsupported, CaptureEnv, Capture,
  Slot, scene_slot, face_slot, body_slot, veh_slot, slot_of, set_url, image_name, image_path,
  image_url, gat1400_timestamp, parse_image, parse_images, set_item, parse_list, capture, cleared,
  write_file,
}

-- An image with the name under which it is stored.
abbrev pub Named : Type 0
Named = Text × Image

abbrev pub url_at : {F : Type 0} → Slot → OutJson F → Text
url_at scene_slot j = j.scene_url
url_at face_slot j = j.face_url
url_at body_slot j = j.person_body_url
url_at veh_slot j = j.veh_body_url

abbrev same_slot : Slot → Slot → Bool
same_slot scene_slot scene_slot = true
same_slot face_slot face_slot = true
same_slot body_slot body_slot = true
same_slot veh_slot veh_slot = true
same_slot k l = false

abbrev goes_to : Slot → Option Slot → Bool
goes_to k none = false
goes_to k (some l) = same_slot k l

-- The images of the items, in order.
abbrev pub images_of : List Item → List Image
images_of [] = []
images_of (i ∷ items) = i.images ++ images_of items

abbrev pub image_of : Named → Image
image_of n = n.1

some_injective : {A : Type 0} {x y : A} → some x ≡ some y → x ≡ y
some_injective e = cc

module _ {F : Type 0} (env : CaptureEnv F) where
  -- The URL of the last image of a type for that place, or `url` where there is none.
  abbrev pub last_url : Slot → Text → List Named → Text
  last_url k url [] = url
  last_url k url (n ∷ ns) =
      last_url k (if goes_to k (slot_of n.1.kind) then image_url env n.0 else url) ns

  -- The files of the images whose file opens, with the bytes that fwrite takes.
  abbrev pub files_of : List Named → List (Text × Text)
  files_of [] = []
  files_of (n ∷ ns) = write_file (image_path env n.0) n.1.bytes n.1.accepts ++ files_of ns

  files_of-append : (ns ms : List Named) → files_of (ns ++ ms) ≡ files_of ns ++ files_of ms
  files_of-append [] ms = refl
  files_of-append (n ∷ ns) ms =
      ap (λ t. write_file (image_path env n.0) n.1.bytes n.1.accepts ++ t) (files_of-append ns ms)
      ∙ sym (
          append_assoc (write_file (image_path env n.0) n.1.bytes n.1.accepts) (files_of ns)
            (files_of ms))

  -- The message and the files of `c'`, which come of those of `c` and of the images `ns`.
  record Shows (c c' : Capture F) (ns : List Named) : Type 0 where
    files : c'.files ≡ c.files ++ files_of ns
    urls : (k : Slot) → url_at k c'.json ≡ last_url k (url_at k c.json) ns

  url_at-set_url :
      (k : Slot) (o : Option Slot) (url : Text) (j : OutJson F)
      → url_at k (set_url o url j) ≡ (if goes_to k o then url else url_at k j)
  url_at-set_url k none url j = refl
  url_at-set_url k (some l) url j = ground arith

  url_at-set_item :
      (k : Slot) (kind : DataType) (i : Item) (j : OutJson F)
      → url_at k (set_item env kind i j) ≡ url_at k j
  unfolding set_item
  url_at-set_item k kind i j = ground arith

  last_url-append :
      (k : Slot) (url : Text) (ns ms : List Named)
      → last_url k url (ns ++ ms) ≡ last_url k (last_url k url ns) ms
  last_url-append k url [] ms = refl
  last_url-append k url (n ∷ ns) ms =
      last_url-append k (if goes_to k (slot_of n.1.kind) then image_url env n.0 else url) ns ms

  url_at-stamped :
      (k : Slot) (timestamp id : ℤ) (j : OutJson F)
      → url_at k (record j { timestamp = timestamp; id = id }) ≡ url_at k j
  url_at-stamped scene_slot timestamp id j = refl
  url_at-stamped face_slot timestamp id j = refl
  url_at-stamped body_slot timestamp id j = refl
  url_at-stamped veh_slot timestamp id j = refl

  -- A stretch of the callback that parses these images: their names, in order.
  Listed : (Capture F → Capture F) → List Image → Type 0
  Listed f imgs = (c : Capture F) → (ns : List Named) × (map image_of ns ≡ imgs) × Shows c (f c) ns

  then-Listed :
      (f g : Capture F → Capture F) (xs ys : List Image)
      → Listed f xs
      → Listed g ys
      → Listed (λ c. g (f c)) (xs ++ ys)
  unfolding Listed
  then-Listed f g xs ys hf hg c =
      let (ns, en, sn) = hf c in
      let (ms, em, sm) = hg (f c) in
      (
        ns ++ ms,
        map-append image_of ns ms ∙ ap (λ t. t ++ map image_of ms) en ∙ ap (λ t. xs ++ t) em,
        record {
          files =
              sm.files
              ∙ ap (λ t. t ++ files_of ms) sn.files
              ∙ append_assoc c.files (files_of ns) (files_of ms)
              ∙ ap (λ t. c.files ++ t) (sym (files_of-append ns ms));
          urls = λ k.
              sm.urls k
              ∙ ap (λ t. last_url k t ms) (sn.urls k)
              ∙ sym (last_url-append k (url_at k c.json) ns ms);
        },
      )

  parse_image-Listed :
      (frame_id : ℤ) (img : Image) → Listed (λ c. parse_image env frame_id c img) (img ∷ [])
  unfolding Listed parse_image
  parse_image-Listed frame_id img c =
      let timestamp =
        if eq_ℤ c.json.timestamp (pos 0)
        then gat1400_timestamp env img.shot_time
        else c.json.timestamp in
      let name = image_name env frame_id timestamp img in
      (
        (name, img) ∷ [],
        refl,
        record {
          files =
              ap (λ t. c.files ++ t)
                (sym (append-nil (write_file (image_path env name) img.bytes img.accepts)));
          urls = λ k.
              url_at-set_url k (slot_of img.kind) (image_url env name)
                (record (c.json) { timestamp = timestamp; id = env.obj_id })
              ∙ ap (λ t. if goes_to k (slot_of img.kind) then image_url env name else t)
                  (url_at-stamped k timestamp env.obj_id c.json);
        },
      )

  parse_images-Listed :
      (frame_id : ℤ) (imgs : List Image) → Listed (λ c. parse_images env frame_id c imgs) imgs
  unfolding Listed parse_images
  parse_images-Listed frame_id [] c =
      ([], refl, record { files = sym (append-nil c.files); urls = λ k. refl })
  parse_images-Listed frame_id (img ∷ imgs) c =
      then-Listed (λ c. parse_image env frame_id c img) (λ c. parse_images env frame_id c imgs)
        (img ∷ []) imgs (parse_image-Listed frame_id img) (parse_images-Listed frame_id imgs) c

  set_item-Listed :
      (kind : DataType) (i : Item) → Listed (λ c. record c { json = set_item env kind i c.json }) []
  unfolding Listed
  set_item-Listed kind i c = (
    [],
    refl,
    record { files = sym (append-nil c.files); urls = λ k. url_at-set_item k kind i c.json },
  )

  parse_list-Listed :
      (kind : DataType) (frame_id : ℤ) (items : List Item)
      → Listed (λ c. parse_list env kind frame_id c items) (images_of items)
  unfolding Listed parse_list
  parse_list-Listed kind frame_id [] c =
      ([], refl, record { files = sym (append-nil c.files); urls = λ k. refl })
  parse_list-Listed kind frame_id (i ∷ items) c =
      then-Listed
        (λ c. parse_images env frame_id (record c { json = set_item env kind i c.json }) i.images)
        (λ c. parse_list env kind frame_id c items) i.images (images_of items)
        (then-Listed (λ c. record c { json = set_item env kind i c.json })
          (λ c. parse_images env frame_id c i.images) [] i.images (set_item-Listed kind i)
          (parse_images-Listed frame_id i.images))
        (parse_list-Listed kind frame_id items) c

  -- The message and the files of a capture, from the names and images `ns`.
  pub record Reports (c : Capture F) (ns : List Named) : Type 0 where
    pub files : c.files ≡ files_of ns
    pub urls : (k : Slot) → url_at k c.json ≡ last_url k [] ns

  url_at-cleared : (k : Slot) → url_at k (cleared env).json ≡ []
  url_at-cleared scene_slot = refl
  url_at-cleared face_slot = refl
  url_at-cleared body_slot = refl
  url_at-cleared veh_slot = refl

  parsed :
      (kind : DataType) (frame_id : ℤ) (items : List Item) (c : Capture F)
      → parse_list env kind frame_id (cleared env) items ≡ c
      → (ns : List Named) × (map image_of ns ≡ images_of items) × Reports c ns
  unfolding Listed
  parsed kind frame_id items c e =
      let (ns, en, sn) = parse_list-Listed kind frame_id items (cleared env) in
      (
        ns,
        en,
        record {
          files = ap (λ x. x.files) (sym e) ∙ sn.files;
          urls = λ k.
              ap (λ x. url_at k x.json) (sym e)
              ∙ sn.urls k
              ∙ ap (λ t. last_url k t ns) (url_at-cleared k);
        },
      )

  -- The images of a capture of a supported type are taken in the order in which the vendor's lists
  -- have them, each under a name. The files are those of the images whose file opens, in this order,
  -- each with the bytes that fwrite takes. Each URL of the message is that of the name of the last of
  -- the images whose type belongs to that place, whether or not there is such a file, or empty where
  -- there is no such image. The paths and the URLs are cut to 511 bytes.
  pub capture-Reports :
      (kind : DataType) (frame_id : ℤ) (items : List Item) (c : Capture F)
      → (capture env kind frame_id items).1 ≡ some c
      → (ns : List Named) × (map image_of ns ≡ images_of items) × Reports c ns
  unfolding capture
  capture-Reports face frame_id items c e = parsed face (succ frame_id) items c (some_injective e)
  capture-Reports person frame_id items c e =
      parsed person (succ frame_id) items c (some_injective e)
  capture-Reports veh frame_id items c e = parsed veh (succ frame_id) items c (some_injective e)
  capture-Reports nonmotor frame_id items c e =
      parsed nonmotor (succ frame_id) items c (some_injective e)
  capture-Reports unsupported frame_id items c e = cc

-- ===== src/Json.antt =====
-- The JSON getters of work/share/src/share.cpp over cJSON, which is third-party code (work/cjson)
-- and a parameter here, as the process heap and the files are.
pub mod Buffers
use aiotc.Prelude.{
  ℕ, zero, suc, ◌+◌, ◌*◌, ◌/◌, Bool, true, false, ◌&&◌, Option, none, some, List, [], ◌∷◌, ℤ, pos,
  minus_one, ltb, if◌then◌else◌, length, ◌>>=◌,
}
use Prim.Native.String.{String}
use aiotc.Cstring.{Text, codes, strncpy}

pub record Host : Type 1 where
  pub Item : Type 0
  pub Double : Type 0
  pub double_minus_one : Double
  pub parse : Text → Option Item
  pub get_object_item : Item → Text → Option Item
  pub valueint : Item → ℤ
  pub valuedouble : Item → Double
  pub valuestring : Item → Option Text
  pub print : Item → Option Text
  pub get_array_size : Item → ℕ
  pub get_array_item : Item → ℕ → Option Item
  -- The tree after `cJSON_DeleteItemFromObject` on the object behind the given keys.
  pub delete_item : Item → List Text → Text → Item
  -- Whether `malloc` grants a block of that size.
  pub malloc : ℕ → Bool
  -- What `fopen` and `fread` give of a file.
  pub file : Text → Option Text

-- The size of the buffer that a text of `n` bytes is copied into.
abbrev pub buffer_size : ℕ → ℕ
buffer_size n = n / 1024 * 1024 + 1024

module _ (h : Host) where
  open h use {
    Item, Double, double_minus_one, parse, get_object_item, valueint, valuedouble, valuestring,
    print, get_array_size, get_array_item, delete_item, malloc, file,
  }

  -- `strncpy(name, nameSub, 256); cJSON_GetObjectItem(p, name)`
  abbrev pub member : Item → Text → Option Item
  member p name = get_object_item p (strncpy 256 name)

  -- The part that the getters share: the item behind up to three names, the first of them given.
  unfoldable pub descend : Text → (name1 name2 name3 : Option Text) → Option Item
  descend buf name1 name2 name3 = do
    root ← parse buf
    sub1 ← name1
    p1 ← member root sub1
    elim name2 [
      | none ↦ some p1
      | some sub2 ↦ (do
        p2 ← member p1 sub2
        elim name3 [ none ↦ some p2 | some sub3 ↦ member p2 sub3 ])
    ]

  -- getIntValFromJson
  unfoldable pub get_int_val_from_json : Text → (name1 name2 name3 : Option Text) → ℤ
  get_int_val_from_json buf name1 name2 name3 = elim (descend buf name1 name2 name3) [
    | none ↦ minus_one
    | some p ↦ valueint p
  ]

  -- getDoubleValFromJson
  unfoldable pub get_double_val_from_json : Text → (name1 name2 name3 : Option Text) → Double
  get_double_val_from_json buf name1 name2 name3 = elim (descend buf name1 name2 name3) [
    | none ↦ double_minus_one
    | some p ↦ valuedouble p
  ]

  -- The copy that getStrValFromJson returns of a string.
  unfoldable pub copy_string : Text → Option Text
  copy_string val =
      let len = (length val + 1) / 1024 * 1024 + 1024 in
      if malloc len then some (strncpy len val) else none

  -- getStrValFromJson
  unfoldable pub get_str_val_from_json : Text → (name1 name2 name3 : Option Text) → Option Text
  get_str_val_from_json buf name1 name2 name3 = do
    p ← descend buf name1 name2 name3
    val ← valuestring p
    copy_string val

  -- getObjBufFromJson
  unfoldable pub get_obj_buf_from_json : Text → (name1 name2 name3 : Option Text) → Option Text
  get_obj_buf_from_json buf name1 name2 name3 = do p ← descend buf name1 name2 name3; print p

  -- getArrayBufFromJson, with the value that `size` is set to
  unfoldable pub get_array_buf_from_json :
      Text → (name1 name2 name3 : Option Text) → ℕ → Option Text × ℕ
  get_array_buf_from_json buf name1 name2 name3 size = elim (descend buf name1 name2 name3) [
    | none ↦ (none, size)
    | some p ↦ (print p, get_array_size p)
  ]

  -- getBufFromArray: without a first name the whole text is the array.
  unfoldable pub get_buf_from_array : Text → (name1 name2 name3 : Option Text) → ℕ → Option Text
  get_buf_from_array buf name1 name2 name3 index = do
    p ← elim name1 [ none ↦ parse buf | some sub1 ↦ descend buf (some sub1) name2 name3 ]
    if ltb index (get_array_size p) then (do item ← get_array_item p index; print item) else none

  -- The loop of getIntValFromArray, with `n` rounds left from index `i`.
  unfoldable pub read_ints : Item → (n i : ℕ) → List ℤ
  read_ints p zero i = []
  read_ints p (suc n) i =
      let later = read_ints p n (i + 1) in
      elim (get_array_item p i) [ none ↦ [] | some item ↦ valueint item ∷ later ]

  -- getIntValFromArray: the numbers written to `pInt`.
  unfoldable pub get_int_val_from_array : Text → (name1 name2 name3 : Option Text) → ℕ → List ℤ
  unfolding read_ints
  get_int_val_from_array buf name1 name2 name3 max = elim (descend buf name1 name2 name3) [
    | none ↦ []
    | some p ↦ read_ints p (if ltb (get_array_size p) max then get_array_size p else max) 0
  ]

  -- The keys of the object that delObjJson deletes from, and the key that it deletes.
  abbrev pub deletion : (name1 name2 name3 : Option Text) → Option (List Text × Text)
  deletion none name2 name3 = none
  deletion (some sub1) none name3 = some ([], sub1)
  deletion (some sub1) (some sub2) none = some (sub1 ∷ [], sub2)
  deletion (some sub1) (some sub2) (some sub3) = some (sub1 ∷ sub2 ∷ [], sub3)

  -- delObjJson: the text without the item, or the text as it is where the item is not there.
  unfoldable pub del_obj_json : Text → (name1 name2 name3 : Option Text) → Option Text
  del_obj_json buf name1 name2 name3 = do
    root ← parse buf
    elim (descend buf name1 name2 name3) [
      | none ↦ print root
      | some _ ↦ elim (deletion name1 name2 name3) [
        | none ↦ print root
        | some (keys, name) ↦ print (delete_item root keys name)
      ]
    ]

  -- readFile2Buf: the file's bytes in a buffer that `memset` cleared.
  unfoldable pub read_file2_buf : Text → Option Text
  read_file2_buf file_name = do
    bytes ← file file_name
    if malloc (buffer_size (length bytes)) then some bytes else none

  -- getIntValFromFile
  unfoldable pub get_int_val_from_file : Text → (name1 name2 name3 : Option Text) → ℤ
  get_int_val_from_file file_name name1 name2 name3 = elim (read_file2_buf file_name) [
    | none ↦ minus_one
    | some buf ↦ get_int_val_from_json buf name1 name2 name3
  ]

  -- getStrValFromFile
  unfoldable pub get_str_val_from_file : Text → (name1 name2 name3 : Option Text) → Option Text
  get_str_val_from_file file_name name1 name2 name3 = do
    buf ← read_file2_buf file_name
    get_str_val_from_json buf name1 name2 name3

  -- getDoubleValFromFile
  unfoldable pub get_double_val_from_file : Text → (name1 name2 name3 : Option Text) → Double
  get_double_val_from_file file_name name1 name2 name3 = elim (read_file2_buf file_name) [
    | none ↦ double_minus_one
    | some buf ↦ get_double_val_from_json buf name1 name2 name3
  ]

  -- getArrayBufFromFile
  unfoldable pub get_array_buf_from_file :
      Text → (name1 name2 name3 : Option Text) → ℕ → Option Text × ℕ
  get_array_buf_from_file file_name name1 name2 name3 size = elim (read_file2_buf file_name) [
    | none ↦ (none, size)
    | some buf ↦ get_array_buf_from_json buf name1 name2 name3 size
  ]

  -- The calls with one and with two literal names.
  abbrev pub int_at : Text → String → ℤ
  int_at buf name1 = get_int_val_from_json buf (some (codes name1)) none none

  abbrev pub int_at2 : Text → String → String → ℤ
  int_at2 buf name1 name2 = get_int_val_from_json buf (some (codes name1)) (some (codes name2)) none

  abbrev pub str_at : Text → String → Option Text
  str_at buf name1 = get_str_val_from_json buf (some (codes name1)) none none

  abbrev pub str_at2 : Text → String → String → Option Text
  str_at2 buf name1 name2 = get_str_val_from_json buf (some (codes name1)) (some (codes name2)) none

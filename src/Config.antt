-- ===== src/Config.antt =====
-- The configuration and the address of the database (configInit and dbInit of src/db.cpp).
pub mod Uri
pub mod Ports
use Prim.Native.String.{String}
use aiotc.Prelude.{
  ℕ, ◌+◌, ◌-◌, Bool, true, false, not, ◌&&◌, Option, none, some, List, [], ◌∷◌, ◌++◌, ℤ, pos,
  length, take, ltb, if◌then◌else◌,
}
use aiotc.Cstring.{Text, codes, strncpy, strncmp_eq, strcmp_eq}
use aiotc.Json.{Host, get_int_val_from_file, get_str_val_from_file}
use aiotc.Rest.{decimal}

-- configParams
pub record ConfigParams : Type 0 where
  pub master_enable : ℤ
  pub master_rest_port : ℤ
  pub master_streamin_port : ℤ
  pub master_streamin_proc_num : ℤ
  pub master_obj_max : ℤ
  pub slave_rest_port : ℤ
  pub slave_streamin_port : ℤ
  pub slave_streamin_proc_num : ℤ
  pub slave_obj_max : ℤ
  pub shm_key : ℤ
  pub shm_head_size : ℤ
  pub video_max : ℤ
  pub video_frame_size_max : ℤ
  pub video_default_pix_w : ℤ
  pub video_default_pix_h : ℤ
  pub video_que_len : ℤ
  pub capture_max : ℤ
  pub capture_frame_size_max : ℤ
  pub capture_que_len : ℤ
  pub capture_save_days : ℤ
  pub msg_key_start : ℤ
  pub msg_key_max : ℤ
  pub db_type : Text
  pub db_host : Text
  pub db_port : ℤ
  pub db_user : Text
  pub db_password : Text
  pub db_name : Text
  pub workdir : Text

-- `strncpy(field, str, n)` into a cleared field, where the text was found.
abbrev field_of : ℕ → Option Text → Text
field_of n none = []
field_of n (some str) = strncpy n str

-- The only type of database that is taken.
abbrev type_of : Option Text → Text
type_of none = []
type_of (some str) = if strcmp_eq str (codes "mongodb") then strncpy 32 str else []

module _ (h : Host) (cfg : Text) where
  abbrev int_in : String → String → ℤ
  int_in part name = get_int_val_from_file h cfg (some (codes part)) (some (codes name)) none

  -- configInit, of the file `cfg` (AIOTC_CFG); the record was cleared.
  unfoldable pub config_init : ConfigParams
  config_init =
      let db_type =
        type_of (get_str_val_from_file h cfg (some (codes "db")) (some (codes "type")) none) in
      let db_str = λ (name : String).
        get_str_val_from_file h cfg (some (codes "db")) (some db_type) (some (codes name)) in
      record {
        master_enable = int_in "master" "enable";
        master_rest_port = int_in "master" "restPort";
        master_streamin_port = int_in "master" "streaminPort";
        master_streamin_proc_num = int_in "master" "streaminProcNum";
        master_obj_max = int_in "master" "objMax";
        slave_rest_port = int_in "slave" "restPort";
        slave_streamin_port = int_in "slave" "streaminPort";
        slave_streamin_proc_num = int_in "slave" "streaminProcNum";
        slave_obj_max = int_in "slave" "objMax";
        shm_key = int_in "shm" "key";
        shm_head_size = int_in "shm" "headSize";
        video_max = int_in "video" "max";
        video_frame_size_max = int_in "video" "frameSizeMax";
        video_default_pix_w = int_in "video" "defaultPixW";
        video_default_pix_h = int_in "video" "defaultPixH";
        video_que_len = int_in "video" "queueLen";
        capture_max = int_in "capture" "max";
        capture_frame_size_max = int_in "capture" "frameSizeMax";
        capture_que_len = int_in "capture" "queueLen";
        capture_save_days = int_in "capture" "picSaveDays";
        msg_key_start = int_in "msgKey" "start";
        msg_key_max = int_in "msgKey" "max";
        db_type = db_type;
        db_host = field_of 64 (db_str "host");
        db_port =
            get_int_val_from_file h cfg (some (codes "db")) (some db_type) (some (codes "port"));
        db_user = field_of 64 (db_str "user");
        db_password = field_of 64 (db_str "password");
        db_name = field_of 64 (db_str "dbName");
        workdir =
            field_of 256
              (get_str_val_from_file h cfg (some (codes "slave")) (some (codes "workdir")) none);
      }

-- sizeof(uri_string)
abbrev pub uri_size : ℕ
uri_size = 256

-- `strncat(uri_string, str, sizeof(uri_string)-strlen(uri_string))`: up to so many bytes, and a zero
-- behind them.
unfoldable pub strncat_uri : Text → Text → Text
strncat_uri uri str = uri ++ take (uri_size - length uri) str

-- `snprintf` behind the text, with the rest of the buffer for its bytes and the zero.
unfoldable pub snprintf_uri : Text → Text → Text
snprintf_uri uri str = uri ++ take (uri_size - length uri - 1) str

-- `strlen(text) > 0 && strncmp(text, "null", 64) != 0`
abbrev pub is_set : Text → Bool
is_set text = ltb 0 (length text) && not (strncmp_eq 64 text (codes "null"))

-- The text up to the user and the password.
unfoldable pub with_auth : ConfigParams → Text
unfolding strncat_uri
with_auth c =
    let scheme = strncat_uri [] (codes "mongodb://") in
    if is_set c.db_user && is_set c.db_password
    then strncat_uri
        (strncat_uri (strncat_uri (strncat_uri scheme c.db_user) (codes ":")) c.db_password)
        (codes "@")
    else scheme

-- dbInit: `uri_string`, which was cleared. With 256 bytes in it, its zero stands behind the buffer.
unfoldable pub db_init : ConfigParams → Text
unfolding with_auth snprintf_uri
db_init c =
    let host = strncat_uri (strncat_uri (with_auth c) c.db_host) (codes ":") in
    let port = snprintf_uri host (decimal c.db_port) in
    if is_set c.db_name then strncat_uri (strncat_uri port (codes "/")) c.db_name else port

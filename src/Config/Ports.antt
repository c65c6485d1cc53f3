-- ===== src/Config/Ports.antt =====
-- The ports of nginx (getNginxPort and initHttpPort of src/db.cpp), over the texts of its files.
pub mod Texts
pub mod Reads
use aiotc.Prelude.{
  ℕ, zero, suc, Bool, true, false, ◌||◌, ◌&&◌, Option, none, some, List, [], ◌∷◌, ◌++◌, ℤ, pos,
  negsuc, eq_ℤ, ltb, ◌%◌, ◌^◌, ◌-◌, leb, ◌==◌, if◌then◌else◌, ◌>>=◌,
}
use aiotc.Cstring.{Text, codes, starts_with}
use aiotc.Ipc.{read_number}
use aiotc.Rest.Body.{c_string}

-- The text from the first place on at which `strstr` finds the pattern.
unfoldable pub find_text : Text → Text → Option Text
unfolding starts_with
find_text [] pattern = if starts_with pattern [] then some [] else none
find_text (x ∷ xs) pattern =
    let later = find_text xs pattern in
    if starts_with pattern (x ∷ xs) then some (x ∷ xs) else later

-- `p2 = strstr(p1, ";"); *p2 = '\0'`: the text that is left.
unfoldable pub end_at_semicolon : Text → Option Text
end_at_semicolon [] = none
end_at_semicolon (x ∷ xs) =
    let later = end_at_semicolon xs in
    if x == 59 then some (0 ∷ xs) else elim later [ none ↦ none | some t ↦ some (x ∷ t) ]

-- `p1 += n`
unfoldable pub advance : ℕ → Text → Text
advance zero t = t
advance (suc n) [] = []
advance (suc n) (x ∷ xs) = advance n xs

abbrev pub isspace : ℕ → Bool
isspace c = c == 32 || (leb 9 c && leb c 13)

unfoldable pub skip_spaces : Text → Text
skip_spaces [] = []
skip_spaces (x ∷ xs) = let rest = skip_spaces xs in if isspace x then rest else x ∷ xs

abbrev negated : ℕ → ℤ
negated zero = pos 0
negated (suc n) = negsuc n

-- The `int` that the low 32 bits of a number are.
abbrev pub low_int : ℕ → ℤ
low_int n = let low = n % 2 ^ 32 in if ltb low (2 ^ 31) then pos low else negated (2 ^ 32 - low)

-- strtol in 64 bits of a number without a sign, and of one with a minus, as the `int` of atoi: the
-- result of strtol stops at 2 ^ 63 - 1 and at - 2 ^ 63.
abbrev pub positive_int : ℕ → ℤ
positive_int n = low_int (if ltb n (2 ^ 63) then n else 2 ^ 63 - 1)

abbrev pub negative_int : ℕ → ℤ
negative_int n = low_int (2 ^ 64 - (if ltb n (2 ^ 63) then n else 2 ^ 63))

-- atoi after the spaces.
unfoldable pub signed : Text → ℤ
unfolding read_number
signed [] = pos 0
signed (x ∷ xs) =
    if x == 45
    then negative_int (read_number 0 xs)
    else if x == 43
    then positive_int (read_number 0 xs)
    else positive_int (read_number 0 (x ∷ xs))

unfoldable pub atoi : Text → ℤ
unfolding signed skip_spaces
atoi t = signed (skip_spaces t)

-- The number behind the first "listen" of a text, up to the next semicolon.
unfoldable pub listen_port : Text → Option ℤ
unfolding find_text end_at_semicolon advance atoi
listen_port buf = do
  p1 ← find_text buf (codes "listen")
  t ← end_at_semicolon p1
  some (atoi (advance 7 t))

-- getNginxPort, of the file, or none where it does not open or malloc fails. `buf` is the block of
-- malloc: the file's bytes are followed by what the block held before, `beyond`. The port is what it
-- was where none is found.
unfoldable pub get_nginx_port : Option Text → (beyond : Text) → ℤ → ℤ
unfolding listen_port c_string
get_nginx_port none beyond port = port
get_nginx_port (some file) beyond port = elim (listen_port (c_string (file ++ beyond))) [
  | none ↦ port
  | some n ↦ n
]

-- The ports of systemParams.
pub record Ports : Type 0 where
  pub http_port : ℤ
  pub http_flv_port : ℤ

abbrev pub default_port : ℤ → ℤ → ℤ
default_port default port = if eq_ℤ port (pos 0) then default else port

-- initHttpPort, of conf/servers/hls.conf and conf/nginx.conf.
unfoldable pub init_http_port : (hls_conf nginx_conf : Option Text) → Text → Text → Ports → Ports
unfolding get_nginx_port
init_http_port hls_conf nginx_conf beyond beyond' ports = record {
  http_port = default_port (pos 8088) (get_nginx_port hls_conf beyond ports.http_port);
  http_flv_port = default_port (pos 8068) (get_nginx_port nginx_conf beyond' ports.http_flv_port);
}

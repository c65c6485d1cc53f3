-- ===== src/Config/Ports/Reads.antt =====
-- A file of nginx is read back as it was written (getNginxPort and initHttpPort of src/db.cpp).
use mathlib.Core.List.{append_assoc}
use aiotc.Prelude.{
  ℕ, ◌^◌, ◌<◌, ◌≡◌, refl, ap, ◌∙◌, true, false, Option, none, some, ◌∷◌, ◌++◌, All, ℤ, pos, arith,
  ◌==◌, ◌>>=◌, if◌then◌else◌, All-append,
}
use aiotc.Cstring.{Text, codes, strstr}
use aiotc.Ipc.{read_number, isdigit}
use aiotc.Rest.{digits}
use aiotc.Rest.Body.{c_string}
use aiotc.Config.Ports.{
  end_at_semicolon, advance, atoi, listen_port, get_nginx_port, init_http_port, default_port,
  isspace, positive_int,
}
use aiotc.Config.Ports.Texts.{
  find_text_at, end_at_semicolon_at, c_string-append, read_number-digits, plain, digits-plain,
  All-map, atoi-digits, atoi_spaces, positive_int_small,
}

-- A directive up to its semicolon, and a file with it.
abbrev directive : Text → ℕ → Text
directive gap n = codes "listen" ++ (32 ∷ (gap ++ digits 10 n))

abbrev pub conf_text : (before gap : Text) (n : ℕ) (after : Text) → Text
conf_text before gap n after = (before ++ directive gap n) ++ (59 ∷ after)

-- No directive before, no zero byte before, spaces after the word, and a number that is an `int`.
pub record IsConf (before gap : Text) (n : ℕ) : Type 0 where
  pub first : strstr (before ++ codes "liste") (codes "listen") ≡ false
  pub whole : All (λ c. (c == 0) ≡ false) before
  pub spaces : All (λ c. isspace c ≡ true) gap
  pub small : n < 2 ^ 31

module _ (before gap : Text) (n : ℕ) (after : Text) (conf : IsConf before gap n) where
  no_byte :
      (b : ℕ)
      → ((c : ℕ) → isspace c ≡ true → (c == b) ≡ false)
      → ((c : ℕ) → plain c ≡ true → (c == b) ≡ false)
      → All (λ c. (c == b) ≡ false) (gap ++ digits 10 n)
  no_byte b f g =
      All-append (λ c. (c == b) ≡ false) gap (digits 10 n) (All-map gap f conf.spaces)
        (All-map (digits 10 n) g (digits-plain 10 n))

  kept : All (λ c. (c == 0) ≡ false) (before ++ directive gap n)
  kept =
      All-append (λ c. (c == 0) ≡ false) before (directive gap n) conf.whole
        (
          refl,
          (
            refl,
            (
              refl,
              (
                refl,
                (
                  refl,
                  (refl, (refl, no_byte 0 (λ c e. ground (arith, e)) (λ c e. ground (arith, e)))),
                ),
              ),
            ),
          ),
        )

  unended : All (λ c. (c == 59) ≡ false) (directive gap n)
  unended = (
    refl,
    (
      refl,
      (
        refl,
        (
          refl,
          (refl, (refl, (refl, no_byte 59 (λ c e. ground (arith, e)) (λ c e. ground (arith, e))))),
        ),
      ),
    ),
  )

  atoi_read : (rest : Text) → atoi ((gap ++ digits 10 n) ++ 0 ∷ rest) ≡ pos n
  unfolding read_number isdigit
  atoi_read rest =
      ap atoi (append_assoc gap (digits 10 n) (0 ∷ rest))
      ∙ atoi_spaces gap (digits 10 n ++ 0 ∷ rest) conf.spaces
      ∙ atoi-digits (digits 10 n) rest (digits-plain 10 n)
      ∙ ap positive_int (read_number-digits 10 n (0 ∷ rest) (omega (arith, conf.small)))
      ∙ positive_int_small n conf.small

  listen_port_read :
      (rest : Text) → listen_port (before ++ (directive gap n ++ 59 ∷ rest)) ≡ some (pos n)
  unfolding listen_port advance
  listen_port_read rest =
      ap (λ o. o >>= after_word)
        (find_text_at before ((32 ∷ (gap ++ digits 10 n)) ++ 59 ∷ rest) conf.first)
      ∙ ap (λ o. o >>= after_end) (end_at_semicolon_at (directive gap n) rest unended)
      ∙ ap some (atoi_read rest)
    where
      after_end : Text → Option ℤ
      after_end t = some (atoi (advance 7 t))

      after_word : Text → Option ℤ
      after_word p1 = end_at_semicolon p1 >>= after_end

  listen_port-conf_text :
      (beyond : Text)
      → listen_port (c_string (conf_text before gap n after ++ beyond)) ≡ some (pos n)
  unfolding c_string
  listen_port-conf_text beyond =
      ap listen_port (
        ap c_string (append_assoc (before ++ directive gap n) (59 ∷ after) beyond)
        ∙ c_string-append (before ++ directive gap n) (59 ∷ (after ++ beyond)) kept
        ∙ append_assoc before (directive gap n) (59 ∷ c_string (after ++ beyond)))
      ∙ listen_port_read (c_string (after ++ beyond))

-- A file of nginx: it is not there, or it has a directive.
pub data Conf : Type 0 where
  missing : Conf
  listens : (before gap : Text) (n : ℕ) (after : Text) → Conf

abbrev pub file_of : Conf → Option Text
file_of missing = none
file_of (listens before gap n after) = some (conf_text before gap n after)

abbrev pub IsReadable : Conf → Type 0
IsReadable missing = Unit
IsReadable (listens before gap n after) = IsConf before gap n

abbrev pub port_of : ℕ → Conf → ℤ
port_of default missing = pos default
port_of default (listens before gap n after) = if n == 0 then pos default else pos n

get_nginx_port-file_of :
    (default : ℕ) (c : Conf) (beyond : Text)
    → IsReadable c
    → default_port (pos default) (get_nginx_port (file_of c) beyond (pos 0)) ≡ port_of default c
unfolding get_nginx_port
get_nginx_port-file_of default missing beyond h = refl
get_nginx_port-file_of default (listens before gap n after) beyond h =
    rw (listen_port-conf_text before gap n after h beyond, get_nginx_port) (ground arith)

-- initHttpPort on ports that are 0, for two files each of which is missing or begins with a text
-- without a zero byte and without the word, and goes on with the word, a space, any spaces, a number
-- below 2 ^ 31 and a semicolon: the ports are the numbers of the files, or 8088 and 8068
-- where the number is 0 or the file is missing, whatever the block behind the file's bytes holds.
pub init_http_port-file_of :
    (hls_conf nginx_conf : Conf) (beyond beyond' : Text)
    → IsReadable hls_conf
    → IsReadable nginx_conf
    → init_http_port
        (file_of hls_conf)
        (file_of nginx_conf)
        beyond
        beyond'
        (record { http_port = pos 0; http_flv_port = pos 0 })
      ≡ record { http_port = port_of 8088 hls_conf; http_flv_port = port_of 8068 nginx_conf }
unfolding init_http_port
init_http_port-file_of hls_conf nginx_conf beyond beyond' h h' =
    rw (get_nginx_port-file_of 8088 hls_conf beyond h)
      (rw (get_nginx_port-file_of 8068 nginx_conf beyond' h') refl)

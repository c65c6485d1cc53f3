-- ===== src/Config/Uri.antt =====
-- The address of the database and the buffer that it is built in (dbInit of src/db.cpp).
use aiotc.Prelude.{
  ℕ, zero, suc, ◌+◌, ◌-◌, ◌/◌, ◌%◌, ◌≤◌, ◌<◌, ◌≡◌, refl, sym, ap, ◌∙◌, ◌&&◌, [], ◌∷◌, ◌++◌, ℤ, pos,
  negsuc, arith, length, take, take_all, length-append, if◌then◌else◌, Bool-cases, inl, inr,
}
use aiotc.Cstring.{Text, codes}
use aiotc.Rest.{digits, decimal}
use aiotc.Config.{ConfigParams, uri_size, strncat_uri, snprintf_uri, is_set, with_auth, db_init}

-- The address that is meant.
abbrev auth_of : ConfigParams → Text
auth_of c =
    if is_set c.db_user && is_set c.db_password
    then codes "mongodb://" ++ c.db_user ++ codes ":" ++ c.db_password ++ codes "@"
    else codes "mongodb://"

abbrev base_of : ConfigParams → Text
base_of c = auth_of c ++ c.db_host ++ codes ":" ++ decimal c.db_port

abbrev pub uri_of : ConfigParams → Text
uri_of c = if is_set c.db_name then base_of c ++ codes "/" ++ c.db_name else base_of c

-- The texts of the configuration end inside their fields of 64 bytes.
pub record IsTerminated (c : ConfigParams) : Type 0 where
  pub host : length c.db_host < 64
  pub user : length c.db_user < 64
  pub password : length c.db_password < 64
  pub name : length c.db_name < 64

length-digits-le : (fuel n : ℕ) → length (digits fuel n) ≤ fuel
unfolding digits
length-digits-le zero n = omega arith
length-digits-le (suc fuel) n = ground (
  arith,
  length-digits-le fuel (n / 10),
  length-append (digits fuel (n / 10)) ((48 + n % 10) ∷ []),
)

length-decimal-le : (n : ℤ) → length (decimal n) ≤ 11
unfolding decimal
length-decimal-le (pos n) = omega (arith, length-digits-le 10 n)
length-decimal-le (negsuc n) = omega (arith, length-digits-le 10 (suc n))

strncat_whole :
    (uri str : Text) → length uri + length str ≤ uri_size → strncat_uri uri str ≡ uri ++ str
unfolding strncat_uri
strncat_whole uri str le =
    ap (λ t. uri ++ t) (take_all (uri_size - length uri) str (omega (arith, le)))

snprintf_whole :
    (uri str : Text) → length uri + length str < uri_size → snprintf_uri uri str ≡ uri ++ str
unfolding snprintf_uri
snprintf_whole uri str le =
    ap (λ t. uri ++ t) (take_all (uri_size - length uri - 1) str (omega (arith, le)))

take-append :
    (n : ℕ) (xs ys : Text) → length xs ≤ n → take n (xs ++ ys) ≡ xs ++ take (n - length xs) ys
take-append n [] ys le = ap (λ m. take m ys) (omega arith)
take-append zero (x ∷ xs) ys le = absurd (omega (arith, le))
take-append (suc n) (x ∷ xs) ys le =
    ap (λ t. x ∷ t)
      (take-append n xs ys (omega (arith, le)) ∙ ap (λ m. xs ++ take m ys) (omega arith))

strncat-take :
    (uri str : Text) → length uri ≤ uri_size → strncat_uri uri str ≡ take uri_size (uri ++ str)
unfolding strncat_uri
strncat-take uri str le = sym (take-append uri_size uri str le)

-- A text that is appended to a known one, where there is room.
cat :
    (uri uri' str : Text) (n m : ℕ)
    → uri ≡ uri'
    → length uri' ≤ n
    → length str ≤ m
    → n + m ≤ uri_size
    → (strncat_uri uri str ≡ uri' ++ str) × (length (uri' ++ str) ≤ n + m)
cat uri uri' str n m e len str_len le = (
  ap (λ t. strncat_uri t str) e ∙ strncat_whole uri' str (omega (arith, len, str_len, le)),
  omega (arith, length-append uri' str, len, str_len),
)

with_auth-whole :
    (c : ConfigParams) → IsTerminated c → (with_auth c ≡ auth_of c) × (length (auth_of c) ≤ 138)
unfolding with_auth
with_auth-whole c h = elim (Bool-cases (is_set c.db_user && is_set c.db_password)) [
  | inl e ↦
      (let user =
          cat scheme scheme c.db_user 10 63 refl (omega arith) (omega (arith, h.user))
            (omega arith) in
        let colon = cat _ _ (codes ":") 73 1 user.0 user.1 (omega arith) (omega arith) in
        let pass =
          cat _ _ c.db_password 74 63 colon.0 colon.1 (omega (arith, h.password)) (omega arith) in
        let at = cat _ _ (codes "@") 137 1 pass.0 pass.1 (omega arith) (omega arith) in rw e at)
  | inr e ↦ rw e (refl, omega arith)
]
  where
    scheme : Text
    scheme = codes "mongodb://"

-- The text up to the port, as dbInit builds it.
base_whole :
    (c : ConfigParams)
    → IsTerminated c
    → (snprintf_uri
          (strncat_uri (strncat_uri (with_auth c) c.db_host) (codes ":"))
          (decimal c.db_port)
        ≡ base_of c)
      × (length (base_of c) ≤ 213)
base_whole c h =
    let (auth, auth_le) = with_auth-whole c h in
    let (host, host_le) =
      cat _ _ c.db_host 138 63 auth auth_le (omega (arith, h.host)) (omega arith) in
    let (colon, colon_le) = cat _ _ (codes ":") 201 1 host host_le (omega arith) (omega arith) in
    let port_le = length-decimal-le c.db_port in
    let before = auth_of c ++ c.db_host ++ codes ":" in
    (
      ap (λ t. snprintf_uri t (decimal c.db_port)) colon
          ∙ snprintf_whole before (decimal c.db_port) (omega (arith, colon_le, port_le)),
      omega (arith, length-append before (decimal c.db_port), colon_le, port_le),
    )

-- Where the texts of the configuration end inside their fields, dbInit builds the address of the
-- database, with the user and the password where both are set, and the name where it is set, cut to the
-- 256 bytes of its buffer.
pub db_init-take : (c : ConfigParams) → IsTerminated c → db_init c ≡ take uri_size (uri_of c)
unfolding db_init
db_init-take c h =
    let (base, base_le) = base_whole c h in
    let (slash, slash_le) = cat _ _ (codes "/") 213 1 base base_le (omega arith) (omega arith) in
    elim (Bool-cases (is_set c.db_name)) [
      | inl e ↦ rw e (
          ap (λ t. strncat_uri t c.db_name) slash
          ∙ strncat-take (base_of c ++ codes "/") c.db_name (omega (arith, slash_le)))
      | inr e ↦ rw e (base ∙ sym (take_all uri_size (base_of c) (omega (arith, base_le))))
    ]

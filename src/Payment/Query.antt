-- ===== src/Payment/Query.antt =====
-- utils/vnpay.go: the parameters of a callback, their canonical query and its signature. The
-- hexadecimal HMAC-SHA512 of a message under a secret is a parameter. A Go map of texts is the
-- list of its entries in the order in which a `range` visits them.
use link_up_server.Base.{
  ℕ, ◌+◌, ◌/◌, ◌%◌, Bool, true, false, ◌&&◌, ◌||◌, List, [], ◌∷◌, ◌++◌, ltb, leb, ◌==◌,
  if◌then◌else◌,
}
use link_up_server.Text.{Text, codes, text_eq, trim_space, to_lower}

abbrev pub Params : Type 0
Params = List (Text × Text)

-- `url.Values`
abbrev pub Values : Type 0
Values = List (Text × List Text)

-- `params[key]`, which is "" for a missing key.
unfoldable pub param : Text → Params → Text
param key [] = []
param key ((k, v) ∷ ps) = if text_eq key k then v else param key ps

abbrev pub first_value : List Text → Text
first_value [] = []
first_value (v ∷ vs) = v

-- `values.Get(key)`
unfoldable pub get_value : Text → Values → Text
get_value key [] = []
get_value key ((k, vs) ∷ values) = if text_eq key k then first_value vs else get_value key values

unfoldable pub vnpay_params_from_values : Values → Params
vnpay_params_from_values [] = []
vnpay_params_from_values ((key, []) ∷ values) = vnpay_params_from_values values
vnpay_params_from_values ((key, v ∷ vs) ∷ values) =
    let out = vnpay_params_from_values values in
    if text_eq key (codes "vnp_SecureHash") || text_eq key (codes "vnp_SecureHashType")
    then out
    else (key, v) ∷ out

-- The order of strings; that of UTF-8 bytes is that of code points.
unfoldable pub text_leb : Text → Text → Bool
text_leb [] t = true
text_leb (c ∷ s) [] = false
text_leb (c ∷ s) (d ∷ t) = ltb c d || (c == d && text_leb s t)

unfoldable pub insert_param : Text × Text → Params → Params
insert_param e [] = e ∷ []
insert_param e (f ∷ ps) = if text_leb e.0 f.0 then e ∷ f ∷ ps else f ∷ insert_param e ps

-- `sort.Strings` on the keys, each with its value.
unfoldable pub sort_params : Params → Params
sort_params [] = []
sort_params (e ∷ ps) = insert_param e (sort_params ps)

abbrev pub hex_digit : ℕ → ℕ
hex_digit n = if ltb n 10 then 48 + n else 55 + n

abbrev pub escaped_byte : ℕ → Text
escaped_byte b = b'%' ∷ hex_digit (b / 16) ∷ hex_digit (b % 16) ∷ []

-- The UTF-8 encoding of a code point, escaped.
unfoldable pub escaped : ℕ → Text
escaped c =
    if ltb c 0x80
    then escaped_byte c
    else if ltb c 0x800
    then escaped_byte (0xC0 + c / 64) ++ escaped_byte (0x80 + c % 64)
    else if ltb c 0x10000
    then escaped_byte (0xE0 + c / 4096)
      ++ escaped_byte (0x80 + c / 64 % 64)
      ++ escaped_byte (0x80 + c % 64)
    else escaped_byte (0xF0 + c / 262144)
      ++ escaped_byte (0x80 + c / 4096 % 64)
      ++ escaped_byte (0x80 + c / 64 % 64)
      ++ escaped_byte (0x80 + c % 64)

abbrev pub is_unreserved : ℕ → Bool
is_unreserved c =
    (leb b'a' c && leb c b'z')
    || (leb b'A' c && leb c b'Z')
    || (leb b'0' c && leb c b'9')
    || (c == b'-' || c == b'_' || c == b'.' || c == b'~')

-- `url.QueryEscape`
unfoldable pub query_escape : Text → Text
query_escape [] = []
query_escape (c ∷ s) =
    if is_unreserved c
    then c ∷ query_escape s
    else if c == b' '
    then b'+' ∷ query_escape s
    else escaped c ++ query_escape s

abbrev pub query_entry : Text × Text → Text
query_entry e = query_escape e.0 ++ b'=' ∷ query_escape e.1

-- The loop over the sorted keys.
unfoldable pub joined_entries : Params → Text
joined_entries [] = []
joined_entries (e ∷ []) = query_entry e
joined_entries (e ∷ f ∷ ps) = query_entry e ++ b'&' ∷ joined_entries (f ∷ ps)

unfoldable pub vnpay_params_to_query : Params → Text
vnpay_params_to_query ps = joined_entries (sort_params ps)

unfoldable pub vnpay_sign : (Text → Text → Text) → Params → Text → Text
vnpay_sign hmac params secret = hmac secret (vnpay_params_to_query params)

unfoldable pub vnpay_verify : (Text → Text → Text) → Params → Text → Text → Bool
vnpay_verify hmac params secret secure_hash =
    if text_eq secure_hash []
    then false
    else text_eq (vnpay_sign hmac params secret) (to_lower (trim_space secure_hash))

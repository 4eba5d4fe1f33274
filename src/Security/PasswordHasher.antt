-- ===== src/Security/PasswordHasher.antt =====
-- password_hasher.py. PBKDF2 of the standard library is a parameter; the encoding of its result is
-- the program's own. Bytes are numbers below 256.
pub mod RoundTrip
use Prim.Native.Char.{Char, code}
use Prim.Native.String.{◌++◌}
use security_review_ai.Prelude.{
  ℕ, ◌+◌, ◌-◌, ◌*◌, ◌/◌, ◌%◌, ◌==◌, String, str_eq, Bool, true, false, ◌&&◌, Option, none, some,
  List, [], ◌∷◌, if◌then◌else◌, leb, split_once, strip,
}
use security_review_ai.Exec.{Result, ok, err, value_error}

abbrev pub Bytes : Type 0
Bytes = List ℕ

abbrev pub algorithm : String
algorithm = "pbkdf2_sha256"

abbrev pub iterations : ℕ
iterations = 390_000

abbrev pub iterations_text : String
iterations_text = "390000"

abbrev nth_char : String → ℕ → Char
nth_char (String.◌∷◌ c s) ℕ.zero = c
nth_char (String.◌∷◌ c s) (ℕ.suc n) = nth_char s n
nth_char String.[] n = Prim.Native.Char.nul

unfoldable pub hex_digit : ℕ → Char
hex_digit n = nth_char "0123456789abcdef" n

-- bytes.hex()
unfoldable pub to_hex : Bytes → String
to_hex [] = String.[]
to_hex (b ∷ t) = String.◌∷◌ (hex_digit (b / 16)) (String.◌∷◌ (hex_digit (b % 16)) (to_hex t))

unfoldable pub digit_value : ℕ → Option ℕ
digit_value c =
    if leb 48 c && leb c 57
    then some (c - 48)
    else if leb 97 c && leb c 102
    then some (c - 87)
    else if leb 65 c && leb c 70
    then some (c - 55)
    else none

abbrev byte_of : Option ℕ → Option ℕ → Option Bytes → Option Bytes
byte_of (some h) (some l) (some t) = some ((h * 16 + l) ∷ t)
byte_of _ _ _ = none

-- bytes.fromhex, on a text without white space
unfoldable pub from_hex : String → Option Bytes
from_hex String.[] = some []
from_hex (String.◌∷◌ c String.[]) = none
from_hex (String.◌∷◌ c (String.◌∷◌ d s)) =
    byte_of (digit_value (code c)) (digit_value (code d)) (from_hex s)

abbrev is_digit : ℕ → Bool
is_digit c = leb 48 c && leb c 57

-- the digits that are left, where single underscores may stand between two of them
number_from : ℕ → Bool → String → Option ℕ
number_from n after_digit String.[] = if after_digit then some n else none
number_from n after_digit (String.◌∷◌ c s) = elim (is_digit (code c)) [
  | true ↦ number_from (n * 10 + (code c - 48)) true s
  | false ↦ elim ((code c == b'_') && after_digit) [ true ↦ number_from n false s | false ↦ none ]
]

after_sign : String → Option ℕ
after_sign String.[] = none
after_sign (String.◌∷◌ c s) =
    if code c == b'+' then number_from 0 false s else number_from 0 false (String.◌∷◌ c s)

abbrev at_least_one : Option ℕ → Option ℕ
at_least_one (some (ℕ.suc n)) = some (ℕ.suc n)
at_least_one _ = none

-- int(text), in ASCII digits. It is `none` where a ValueError is raised, by int() itself or, for a
-- number below 1, by pbkdf2_hmac.
unfoldable pub parse_int : String → Option ℕ
unfolding number_from after_sign strip
parse_int s = at_least_one (after_sign (strip s))

-- hmac.compare_digest
unfoldable pub compare_digest : Bytes → Bytes → Bool
compare_digest [] [] = true
compare_digest (a ∷ s) (b ∷ t) = (a == b) && compare_digest s t
compare_digest _ _ = false

abbrev second : Option (String × String) → Option (String × String × String)
second none = none
second (some (a, s)) = elim (split_once b'$' s) [ none ↦ none | some p ↦ some (a, p.0, p.1) ]

-- `encoded.split("$", 3)`, or `none` if there are not four parts
unfoldable pub split_encoded : String → Option (String × String × String × String)
split_encoded s = elim (second (split_once b'$' s)) [
  | none ↦ none
  | some p ↦ elim (split_once b'$' p.2) [ none ↦ none | some q ↦ some (p.0, p.1, q.0, q.1) ]
]

-- `pbkdf2` has the arguments of hashlib.pbkdf2_hmac after the digest's name
module _ (pbkdf2 : String → Bytes → ℕ → Bytes) where
  -- `salt` is os.urandom(16)
  unfoldable pub hash_password : Bytes → String → String
  hash_password salt password =
      algorithm
      ++ String.◌∷◌ "$" (
          iterations_text
          ++ String.◌∷◌ "$"
              (to_hex salt ++ String.◌∷◌ "$" (to_hex (pbkdf2 password salt iterations))))

  abbrev derive : String → Option ℕ → Option Bytes → Option Bytes → Result Bool
  derive password (some n) (some salt) (some expected) =
      ok (compare_digest (pbkdf2 password salt n) expected)
  derive password _ _ _ = err value_error

  abbrev check_parts : String → Option (String × String × String × String) → Result Bool
  check_parts password none = ok false
  check_parts password (some (alg, n, salt, hash)) =
      if str_eq alg algorithm
      then derive password (parse_int n) (from_hex salt) (from_hex hash)
      else ok false

  unfoldable pub verify_password : String → String → Result Bool
  verify_password password encoded = check_parts password (split_encoded encoded)

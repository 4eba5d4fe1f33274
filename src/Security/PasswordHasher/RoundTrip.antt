-- ===== src/Security/PasswordHasher/RoundTrip.antt =====
-- A password verifies against its own hash: the encoding of `hash_password` is read back by
-- `verify_password`.
use Prim.Native.Char.{code}
use Prim.Native.String.{◌++◌}
use Prim.Native.String.append
use security_review_ai.Prelude.{
  ℕ, zero, suc, ◌/◌, ◌%◌, ◌<◌, ◌==◌, ◌≡◌, refl, ap, String, Bool, true, false, ◌||◌, Option, none,
  some, [], ◌∷◌, arith, All, if◌then◌else◌, split_once,
}
use security_review_ai.Exec.{ok}
use security_review_ai.Security.PasswordHasher.{
  Bytes, algorithm, iterations, iterations_text, hex_digit, to_hex, digit_value, from_hex,
  parse_int, compare_digest, split_encoded, hash_password, verify_password,
}

-- every element is a byte
abbrev pub IsBytes : Bytes → Type 0
IsBytes bs = All (λ b. b < 256) bs

-- the separator stands in a text
abbrev has_dollar : String → Bool
has_dollar String.[] = false
has_dollar (String.◌∷◌ c s) = (code c == b'$') || has_dollar s

-- the digits, one by one
passes_under : (ℕ → Bool) → ℕ → Bool
passes_under test zero = true
passes_under test (suc k) = if test k then passes_under test k else false

test-passes_under :
    (test : ℕ → Bool) (digit bound : ℕ)
    → digit < bound
    → passes_under test bound ≡ true
    → test digit ≡ true
unfolding passes_under
test-passes_under test digit zero below e = absurd (omega arith)
test-passes_under test digit (suc k) below e = ground (arith, test-passes_under test digit k)

is_value : ℕ → Option ℕ → Bool
is_value n none = false
is_value n (some m) = m == n

digit_table : passes_under (λ n. is_value n (digit_value (code (hex_digit n)))) 16 ≡ true
unfolding passes_under is_value digit_value hex_digit
digit_table = refl

no_dollar_table : passes_under (λ n. if code (hex_digit n) == b'$' then false else true) 16 ≡ true
unfolding passes_under hex_digit
no_dollar_table = refl

is_value→eq : (n : ℕ) (o : Option ℕ) → is_value n o ≡ true → o ≡ some n
unfolding is_value
is_value→eq n none h = absurd (cc)
is_value→eq n (some m) h = ground arith

digit_value-hex_digit : (n : ℕ) → n < 16 → digit_value (code (hex_digit n)) ≡ some n
digit_value-hex_digit n h =
    is_value→eq n _
      (test-passes_under (λ n. is_value n (digit_value (code (hex_digit n)))) n 16 h digit_table)

hex_digit-ne-dollar : (n : ℕ) → n < 16 → (code (hex_digit n) == b'$') ≡ false
hex_digit-ne-dollar n h = ground (
  arith,
  test-passes_under (λ n. if code (hex_digit n) == b'$' then false else true) n 16 h
      no_dollar_table,
)

-- What is written in hexadecimal reads back as the same bytes.
from_hex-to_hex : (bs : Bytes) → IsBytes bs → from_hex (to_hex bs) ≡ some bs
unfolding from_hex to_hex
from_hex-to_hex [] h = refl
from_hex-to_hex (b ∷ bs) (hb, h) =
    rw
      (
        digit_value-hex_digit (b / 16) (omega arith),
        digit_value-hex_digit (b % 16) (omega arith),
        from_hex-to_hex bs h,
      )
      (ap (λ x. some (x ∷ bs)) (omega arith))

to_hex-no_dollar : (bs : Bytes) → IsBytes bs → has_dollar (to_hex bs) ≡ false
unfolding to_hex
to_hex-no_dollar [] h = refl
to_hex-no_dollar (b ∷ bs) (hb, h) =
    rw (hex_digit-ne-dollar (b / 16) (omega arith), hex_digit-ne-dollar (b % 16) (omega arith))
      (to_hex-no_dollar bs h)

-- the first separator is the one that was put in
split_once-append :
    (s t : String) → has_dollar s ≡ false → split_once b'$' (s ++ String.◌∷◌ "$" t) ≡ some (s, t)
unfolding split_once
split_once-append String.[] t h = rw append.nil refl
split_once-append (String.◌∷◌ c s) t h = rw append.cons (ground (arith, split_once-append s t))

compare_digest_refl : (bs : Bytes) → compare_digest bs bs ≡ true
unfolding compare_digest
compare_digest_refl [] = refl
compare_digest_refl (b ∷ bs) = ground (arith, compare_digest_refl bs)

split_encoded-append :
    (a n s h : String)
    → has_dollar a ≡ false
    → has_dollar n ≡ false
    → has_dollar s ≡ false
    → split_encoded (a ++ String.◌∷◌ "$" (n ++ String.◌∷◌ "$" (s ++ String.◌∷◌ "$" h)))
      ≡ some (a, n, s, h)
unfolding split_encoded
split_encoded-append a n s h ha hn hs = ground (
  arith,
  split_once-append a (n ++ String.◌∷◌ "$" (s ++ String.◌∷◌ "$" h)) ha,
  split_once-append n (s ++ String.◌∷◌ "$" h) hn,
  split_once-append s h hs,
)

module _ (pbkdf2 : String → Bytes → ℕ → Bytes) where
  split-hash_password :
      (salt : Bytes) (password : String)
      → IsBytes salt
      → split_encoded (hash_password pbkdf2 salt password)
        ≡ some (algorithm, iterations_text, to_hex salt, to_hex (pbkdf2 password salt iterations))
  unfolding hash_password
  split-hash_password salt password h =
      split_encoded-append algorithm iterations_text (to_hex salt)
        (to_hex (pbkdf2 password salt iterations)) refl refl (to_hex-no_dollar salt h)

  -- A password verifies against its own hash, for every salt of bytes and every key derivation
  -- that answers bytes.
  pub verify-hash_password :
      (salt : Bytes) (password : String)
      → IsBytes salt
      → IsBytes (pbkdf2 password salt iterations)
      → verify_password pbkdf2 password (hash_password pbkdf2 salt password) ≡ ok true
  unfolding verify_password parse_int
  verify-hash_password salt password hs hd = rw (split-hash_password salt password hs) (
      rw (from_hex-to_hex salt hs, from_hex-to_hex (pbkdf2 password salt iterations) hd)
        (rw (compare_digest_refl (pbkdf2 password salt iterations)) refl))

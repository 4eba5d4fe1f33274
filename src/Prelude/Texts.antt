-- ===== src/Prelude/Texts.antt =====
-- The text methods of Python that the program calls, on strings as sequences of characters.
-- `lower` maps the ASCII letters; a character outside ASCII is left as it is.
use Prim.Native.Nat.{ℕ, zero, suc, ◌/◌, ◌%◌}
use Prim.Native.Char.{Char, code}
use Prim.Native.String.{String, [], ◌∷◌, ◌++◌ as concat}
use mathlib.Core.Bool.{Bool, true, false, ◌&&◌, ◌||◌, not}
use mathlib.Core.List.{List, [], ◌∷◌}
use mathlib.Core.Option.{Option, none, some}
use text.Mathlib.Text.{◌==◌ as str_eq}
use security_review_ai.Prelude.Tests.{if◌then◌else◌, leb, ◌==◌}

-- `bool(s)`: a string is false exactly when it is empty
abbrev pub is_nonempty : String → Bool
is_nonempty [] = false
is_nonempty (c ∷ s) = true

-- `bool(s)` for a value that may be `None`
abbrev pub is_truthy : Option String → Bool
is_truthy none = false
is_truthy (some s) = is_nonempty s

translate : Char → String → String → Char
translate c (f ∷ fs) (t ∷ ts) = if code c == code f then t else translate c fs ts
translate c _ _ = c

-- s.lower()
unfoldable pub lower : String → String
unfolding translate
lower [] = []
lower (c ∷ s) = translate c "ABCDEFGHIJKLMNOPQRSTUVWXYZ" "abcdefghijklmnopqrstuvwxyz" ∷ lower s

-- c.isspace(), over all of Unicode
unfoldable pub is_space : ℕ → Bool
is_space n =
    (leb 9 n && leb n 13)
    || (leb 28 n && leb n 32)
    || (n == 133)
    || (n == 160)
    || (n == 5760)
    || (leb 8192 n && leb n 8202)
    || (n == 8232)
    || (n == 8233)
    || (n == 8239)
    || (n == 8287)
    || (n == 12288)

lstrip : String → String
lstrip [] = []
lstrip (c ∷ s) = let rest = lstrip s in if is_space (code c) then rest else c ∷ s

-- takes off the characters at the end that pass the test
unfoldable pub rstrip_if : (ℕ → Bool) → String → String
rstrip_if p [] = []
rstrip_if p (c ∷ s) =
    let rest = rstrip_if p s in if p (code c) && not (is_nonempty rest) then [] else c ∷ rest

-- s.strip()
unfoldable pub strip : String → String
unfolding lstrip rstrip_if is_space
strip s = rstrip_if is_space (lstrip s)

-- s.startswith(p)
unfoldable pub starts_with : String → String → Bool
starts_with s [] = true
starts_with [] (c ∷ p) = false
starts_with (d ∷ s) (c ∷ p) = code d == code c && starts_with s p

unfoldable pub cons_first : Char → Option (String × String) → Option (String × String)
cons_first c none = none
cons_first c (some (a, b)) = some (c ∷ a, b)

-- `s.split(sep, 1)` at a separator of one character: `none` if it does not occur
unfoldable pub split_once : ℕ → String → Option (String × String)
unfolding cons_first
split_once sep [] = none
split_once sep (c ∷ s) =
    let rest = cons_first c (split_once sep s) in if code c == sep then some ([], s) else rest

-- `sub in s`
unfoldable pub contains : String → String → Bool
contains [] sub = starts_with [] sub
contains (c ∷ s) sub = starts_with (c ∷ s) sub || contains s sub

-- `s.split(sep)[0]` at a separator of one character
unfoldable pub before : ℕ → String → String
before sep [] = []
before sep (c ∷ s) = let rest = before sep s in if code c == sep then [] else c ∷ rest

-- s.endswith(p)
unfoldable pub ends_with : String → String → Bool
ends_with [] p = not (is_nonempty p)
ends_with (c ∷ s) p = str_eq (c ∷ s) p || ends_with s p

-- sep.join(parts)
unfoldable pub join : String → List String → String
join sep [] = []
join sep (s ∷ []) = s
join sep (s ∷ t ∷ rest) = concat s (concat sep (join sep (t ∷ rest)))

-- s[n:n + 1]
unfoldable char_text : ℕ → String → String
char_text n [] = []
char_text zero (c ∷ s) = c ∷ []
char_text (suc n) (c ∷ s) = char_text n s

-- the decimal digits of a number, with more fuel than there are digits
unfoldable digits : ℕ → ℕ → String → String
unfolding char_text
digits zero n acc = acc
digits (suc fuel) n acc =
    let text = concat (char_text (n % 10) "0123456789") acc in
    let rest = digits fuel (n / 10) text in if leb 10 n then rest else text

-- str(n)
unfoldable pub decimal : ℕ → String
unfolding digits
decimal n = digits (suc n) n []

-- s[:n]
unfoldable pub prefix : ℕ → String → String
prefix n [] = []
prefix zero (c ∷ s) = []
prefix (suc n) (c ∷ s) = c ∷ prefix n s

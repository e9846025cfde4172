-- ===== src/Text.antt =====
-- What Python's `str` offers and several parts use: `str(n)`, tests on characters, and
-- `hmac.compare_digest` of two texts.
pub mod Digits
pub mod Padding
pub mod Reading
use Prim.Native.Char.{code}
use Prim.Native.String.{slice, ◌++◌ as ◌<>◌}
use pylar_framework.Prelude.{
  Bool, Option, String, arith, eq_refl, if◌then◌else◌, leb, ltb, negsuc, none, pos, some, str_eq,
  suc, true, zero, ℕ, ℤ, ◌%◌, ◌&&◌, ◌+◌, ◌-◌, ◌/◌, ◌==◌, ◌||◌, ◌≡◌,
}

-- str(n), on enough fuel
pub digits : ℕ → ℕ → String
digits zero n = ""
digits (suc fuel) n =
    let front = digits fuel (n / 10) in
    if ltb n 10
    then slice "0123456789" n (n + 1)
    else front <> slice "0123456789" (n % 10) (n % 10 + 1)

unfoldable pub str : ℕ → String
unfolding digits
str n = digits (suc n) n

-- s.isascii()
unfoldable pub is_ascii : String → Bool
is_ascii String.[] = true
is_ascii (String.◌∷◌ c s) = ltb (code c) 128 && is_ascii s

-- hmac.compare_digest(a, b) takes texts of ASCII characters only and raises a TypeError otherwise,
-- which is `none`.
unfoldable pub compare_digest : String → String → Option Bool
unfolding is_ascii
compare_digest a b = if is_ascii a && is_ascii b then some (str_eq a b) else none

pub compare_digest_self : (a : String) → is_ascii a ≡ true → compare_digest a a ≡ some true
unfolding compare_digest
compare_digest_self a h = ground (arith, h, eq_refl a)

-- len(s)
unfoldable pub len : String → ℕ
len String.[] = 0
len (String.◌∷◌ c s) = suc (len s)

-- Each character is one of 0 to 9.
unfoldable pub all_decimal : String → Bool
all_decimal String.[] = true
all_decimal (String.◌∷◌ c s) = (leb 48 (code c) && leb (code c) 57) && all_decimal s

zeros : ℕ → String
zeros zero = ""
zeros (suc n) = "0" <> zeros n

-- s.zfill(width), for a text without a sign
unfoldable pub zfill : String → ℕ → String
unfolding zeros len
zfill s width = zeros (width - len s) <> s

-- str(n), for an integer
unfoldable pub str_int : ℤ → String
str_int (pos n) = str n
str_int (negsuc n) = "-" <> str (n + 1)

-- s.split(separator, 1), for one character, which has two parts or, where it does not occur, one
unfoldable pub split_once : ℕ → String → Option (String × String)
split_once separator String.[] = none
split_once separator (String.◌∷◌ c s) =
    let rest = split_once separator s in
    if code c == separator
    then some ("", s)
    else elim rest [ none ↦ none | some (a, b) ↦ some (String.◌∷◌ c a, b) ]

-- s.endswith(suffix)
unfoldable pub ends_with : String → String → Bool
ends_with String.[] suffix = str_eq "" suffix
ends_with (String.◌∷◌ c s) suffix = str_eq (String.◌∷◌ c s) suffix || ends_with s suffix

-- s[:n]
unfoldable pub take_text : ℕ → String → String
take_text zero s = ""
take_text (suc n) String.[] = ""
take_text (suc n) (String.◌∷◌ c s) = String.◌∷◌ c (take_text n s)

-- s.lstrip(c), for one character
unfoldable pub lstrip : ℕ → String → String
lstrip char String.[] = ""
lstrip char (String.◌∷◌ c s) =
    let rest = lstrip char s in if code c == char then rest else String.◌∷◌ c s

-- s.rstrip(c), for one character
unfoldable pub rstrip : ℕ → String → String
rstrip char String.[] = ""
rstrip char (String.◌∷◌ c s) =
    let rest = rstrip char s in if (code c == char) && str_eq rest "" then "" else String.◌∷◌ c rest

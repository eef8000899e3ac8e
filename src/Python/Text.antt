-- ===== src/Python/Text.antt =====
-- What the program does with Python's `str`: stripping, the print of an `int` (`str(n)`, and `n` in
-- an f-string), and `int(text)`. A digit is one of the ten of ASCII, and no text has more than the
-- 4300 digits that Python converts.
pub mod RoundTrip
pub mod Commas
use rbg_planner.Prelude.{
  ℕ, zero, suc, ◌+◌, ◌-◌, ◌*◌, ◌/◌, ◌%◌, ℤ, pos, negsuc, List, [], ◌∷◌, Bool, true, false, ◌&&◌,
  ◌||◌, Option, none, some, if◌then◌else◌, ltb, leb, ◌==◌, get_elem?, length,
}
use Prim.Native.Char.{code}
use Prim.Native.String
use Prim.Native.String.{String, ◌++◌ as append}
use mathlib.Core.Option
use mathlib.Core.Option.{get_or}

-- The code points of a text.
abbrev pub codes : String → List ℕ
codes String.[] = []
codes (String.◌∷◌ c s) = code c ∷ codes s

-- `str.isspace`, of one character
unfoldable pub is_space : ℕ → Bool
is_space c =
    (leb 9 c && leb c 13)
    || (leb 28 c && leb c 32)
    || c == 133
    || c == 160
    || c == 5760
    || (leb 8192 c && leb c 8202)
    || c == 8232
    || c == 8233
    || c == 8239
    || c == 8287
    || c == 12288

unfoldable pub strip_left : String → String
unfolding is_space
strip_left String.[] = ""
strip_left (String.◌∷◌ c s) =
    let rest = strip_left s in if is_space (code c) then rest else String.◌∷◌ c s

-- A character before a stripped rest.
abbrev pub before : Bool → String → String → String
before space whole String.[] = if space then "" else whole
before space whole (String.◌∷◌ d s) = whole

unfoldable pub strip_right : String → String
unfolding is_space
strip_right String.[] = ""
strip_right (String.◌∷◌ c s) =
    let rest = strip_right s in before (is_space (code c)) (String.◌∷◌ c rest) rest

-- `text.strip()`
unfoldable pub strip : String → String
unfolding strip_left strip_right
strip text = strip_right (strip_left text)

pub digit : ℕ → String
digit n = get_or (get_elem? ("0" ∷ "1" ∷ "2" ∷ "3" ∷ "4" ∷ "5" ∷ "6" ∷ "7" ∷ "8" ∷ "9" ∷ []) n) ""

digits_of : ℕ → ℕ → String
unfolding digit
digits_of zero n = ""
digits_of (suc fuel) n =
    let front = digits_of fuel (n / 10) in
    if ltb n 10 then digit n else append front (digit (n % 10))

-- `str(n)`. A number has no more digits than its value plus one.
unfoldable pub int_text : ℤ → String
unfolding digits_of
int_text (pos n) = digits_of (suc n) n
int_text (negsuc n) = append "-" (digits_of (suc (suc n)) (suc n))

abbrev pub is_digit : ℕ → Bool
is_digit c = leb 48 c && leb c 57

unfoldable pub all_space : List ℕ → Bool
unfolding is_space
all_space [] = true
all_space (c ∷ cs) = is_space c && all_space cs

-- The digits of `int(text)` from some on, behind the number `n`; `after` tells whether a digit has
-- just been read. A single underscore may stand between digits, and spaces behind the last.
unfoldable pub scan_digits : Bool → ℕ → List ℕ → Option ℕ
unfolding is_space all_space
scan_digits after n [] = if after then some n else none
scan_digits after n (c ∷ cs) =
    let more = scan_digits true (n * 10 + (c - 48)) cs in
    let gap = scan_digits false n cs in
    if is_digit c
    then more
    else if after
    then (if c == 95 then gap else if is_space c && all_space cs then some n else none)
    else none

-- `-n`
unfoldable pub negated : ℕ → ℤ
negated zero = pos 0
negated (suc n) = negsuc n

-- `int(text)`, on the code points: spaces, a sign, digits.
unfoldable pub scan_int : List ℕ → Option ℤ
unfolding is_space scan_digits negated
scan_int [] = none
scan_int (c ∷ cs) =
    let rest = scan_int cs in
    if is_space c
    then rest
    else if c == 45
    then Option.map negated (scan_digits false 0 cs)
    else if c == 43
    then Option.map pos (scan_digits false 0 cs)
    else Option.map pos (scan_digits false 0 (c ∷ cs))

-- `int(text)`: `none` is a `ValueError`.
unfoldable pub parse_int : String → Option ℤ
unfolding scan_int
parse_int text = scan_int (codes text)

-- `text.lower() == "true"`. No character outside ASCII has a lower case among these letters.
abbrev pub lower : ℕ → ℕ
lower c = if leb 65 c && leb c 90 then c + 32 else c

unfoldable pub equal_lower : List ℕ → List ℕ → Bool
equal_lower [] [] = true
equal_lower (c ∷ cs) (k ∷ ks) = (lower c == k) && equal_lower cs ks
equal_lower _ _ = false

unfoldable pub is_true : String → Bool
unfolding equal_lower
is_true text = equal_lower (codes text) (codes "true")

-- `text.split(",")`, on the code points: the pieces between commas.
abbrev pub join_head : ℕ → List (List ℕ) → List (List ℕ)
join_head c [] = (c ∷ []) ∷ []
join_head c (piece ∷ pieces) = (c ∷ piece) ∷ pieces

unfoldable pub split_commas : List ℕ → List (List ℕ)
split_commas [] = [] ∷ []
split_commas (c ∷ cs) =
    let rest = split_commas cs in if c == 44 then [] ∷ rest else join_head c rest

-- `os.path.join(dir, name)`, of a name that is not absolute
unfoldable pub ends_with_slash : String → Bool
ends_with_slash String.[] = false
ends_with_slash (String.◌∷◌ c String.[]) = code c == 47
ends_with_slash (String.◌∷◌ c (String.◌∷◌ d s)) = ends_with_slash (String.◌∷◌ d s)

unfoldable pub join_path : String → String → String
unfolding ends_with_slash
join_path dir name =
    let sep = if leb (length (codes dir)) 0 || ends_with_slash dir then "" else "/" in
    append dir (append sep name)

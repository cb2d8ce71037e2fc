-- ===== src/Base/Text.antt =====
-- Python's `strip`, `lower` and `int` on texts, over code points and for ASCII letters and spaces.
use Prim.Native.Nat.{ℕ, ◌+◌, Ordering}
use Prim.Native.Char.{code}
use Prim.Native.String.{String, compare as compare_text}
use mathlib.Core.Bool.{Bool, true, false, ◌&&◌, ◌||◌}
use mathlib.Core.List.{List, [], ◌∷◌, map, reverse}
use agents_for_dummies.Base.Tests.{leb, eqb, if◌then◌else◌}

unfoldable pub codes : String → List ℕ
codes String.[] = []
codes (String.◌∷◌ c s) = code c ∷ codes s

unfoldable pub is_less : Ordering → Bool
is_less Ordering.lt = true
is_less _ = false

-- s < t
unfoldable pub text_before : String → String → Bool
unfolding is_less
text_before a b = is_less (compare_text a b)

unfoldable pub is_space : ℕ → Bool
is_space c = (leb 9 c && leb c 13) || (leb 28 c && leb c 32)

unfoldable pub lstrip : List ℕ → List ℕ
unfolding is_space
lstrip [] = []
lstrip (c ∷ cs) = if is_space c then lstrip cs else c ∷ cs

-- s.strip()
unfoldable pub strip : List ℕ → List ℕ
unfolding lstrip
strip cs = reverse (lstrip (reverse (lstrip cs)))

lower_code : ℕ → ℕ
lower_code c = if leb b'A' c && leb c b'Z' then c + 32 else c

-- s.strip().lower(), and s.strip().casefold()
unfoldable pub normalise : String → List ℕ
unfolding codes strip lower_code
normalise s = map lower_code (strip (codes s))

unfoldable pub same_codes : List ℕ → List ℕ → Bool
same_codes [] [] = true
same_codes (c ∷ cs) (d ∷ ds) = eqb c d && same_codes cs ds
same_codes _ _ = false

is_digit : ℕ → Bool
is_digit c = leb b'0' c && leb c b'9'

-- The digits of a number, with single underscores between them; the flag says that a digit is due.
digits_ok : Bool → List ℕ → Bool
unfolding is_digit
digits_ok due [] = if due then false else true
digits_ok due (c ∷ cs) =
    let after_digit = digits_ok false cs in
    let after_underscore = digits_ok true cs in
    if is_digit c
    then after_digit
    else if eqb c b'_' && (if due then false else true)
    then after_underscore
    else false

unsigned_ok : List ℕ → Bool
unfolding digits_ok
unsigned_ok [] = false
unsigned_ok (c ∷ cs) =
    if eqb c b'+' || eqb c b'-' then digits_ok true cs else digits_ok true (c ∷ cs)

-- whether int(p) returns
int_ok : List ℕ → Bool
unfolding unsigned_ok strip
int_ok cs = unsigned_ok (strip cs)

-- all(int(p) returns for p in s.split('-')); the second argument is the part read so far, reversed
parts_ok : List ℕ → List ℕ → Bool
unfolding int_ok
parts_ok [] part = int_ok (reverse part)
parts_ok (c ∷ cs) part =
    let next = parts_ok cs [] in
    let more = parts_ok cs (c ∷ part) in if eqb c b'-' then int_ok (reverse part) && next else more

unfoldable pub int_parts_ok : List ℕ → Bool
unfolding parts_ok
int_parts_ok cs = parts_ok cs []

-- whether the code point at the index is the given one
unfoldable pub code_at : List ℕ → ℕ → ℕ → Bool
code_at [] i c = false
code_at (d ∷ ds) ℕ.zero c = eqb d c
code_at (d ∷ ds) (ℕ.suc i) c = code_at ds i c

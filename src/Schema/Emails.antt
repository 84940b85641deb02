-- ===== src/Schema/Emails.antt =====
-- `a.toLowerCase() === b.toLowerCase()`, on the code points of the two texts: the letters of ASCII,
-- Latin-1, Latin Extended-A, Greek, Cyrillic, Armenian and the full-width forms. Other letters are
-- compared as they stand; so is the dotted I, whose small letter is two code points.
use Prim.Native.Char.{code}
use enterprise_ai_procuremen.Prelude.{
  ℕ, ◌+◌, Bool, true, false, not, ◌&&◌, ◌||◌, ◌%◌, List, [], ◌∷◌, map, String, leb, ◌==◌,
  if◌then◌else◌,
}

abbrev codes : String → List ℕ
codes String.[] = []
codes (String.◌∷◌ c s) = code c ∷ codes s

between : ℕ → ℕ → ℕ → Bool
between lo hi c = leb lo c && leb c hi

-- the blocks where a small letter stands a fixed distance after its capital: ASCII, Latin-1 without
-- the sign of multiplication, Greek, Cyrillic, Armenian and full-width letters
is_block_capital : ℕ → Bool
unfolding between
is_block_capital c =
    between 65 90 c
    || (between 192 222 c && not (c == 215))
    || (between 913 939 c && not (c == 930))
    || between 1040 1071 c
    || between 65313 65338 c

-- the blocks where a small letter follows its capital: capitals at even, or at odd code points
is_even_capital : ℕ → Bool
unfolding between
is_even_capital c =
    ((between 256 302 c || between 306 310 c || between 330 374 c)
      || (between 1120 1152 c || between 1162 1214 c || between 1232 1326 c))
    && (c % 2 == 0)

is_odd_capital : ℕ → Bool
unfolding between
is_odd_capital c = (between 313 327 c || between 377 381 c || between 1217 1229 c) && (c % 2 == 1)

-- The last lines are the Greek capitals with a tonos, Y with a diaeresis and the palochka.
to_lower : ℕ → ℕ
unfolding between is_block_capital is_even_capital is_odd_capital
to_lower c =
    if is_block_capital c
    then c + 32
    else if between 1024 1039 c
    then c + 80
    else if between 1329 1366 c
    then c + 48
    else if is_even_capital c || is_odd_capital c
    then c + 1
    else if c == 902
    then 940
    else if between 904 906 c
    then c + 37
    else if c == 908
    then 972
    else if between 910 911 c
    then c + 63
    else if c == 376
    then 255
    else if c == 1216
    then 1231
    else c

same_codes : List ℕ → List ℕ → Bool
same_codes [] [] = true
same_codes (x ∷ xs) (y ∷ ys) = x == y && same_codes xs ys
same_codes _ _ = false

unfoldable pub same_email : String → String → Bool
unfolding to_lower same_codes
same_email a b = same_codes (map to_lower (codes a)) (map to_lower (codes b))

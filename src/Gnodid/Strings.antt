-- ===== src/Gnodid/Strings.antt =====
-- What the commands use of Go's packages `strings` and `strconv`.
pub mod Decimal
use gnodi.Base.{
  ℕ, zero, suc, ◌+◌, ◌/◌, ◌%◌, Bool, true, false, List, [], ◌∷◌, ◌++◌, ltb, ◌==◌, if◌then◌else◌,
}
use gnodi.Base.Int.{ℤ, pos, negsuc}
use gnodi.Base.Text.{Bytes}

-- The first piece gets one more byte.
abbrev pub extend : ℕ → List Bytes → List Bytes
extend c [] = (c ∷ []) ∷ []
extend c (piece ∷ pieces) = (c ∷ piece) ∷ pieces

-- `strings.Split(s, ",")`: without a comma it is the text itself, the empty text too.
unfoldable pub split : Bytes → List Bytes
split [] = [] ∷ []
split (c ∷ s) = let rest = split s in if c == b',' then [] ∷ rest else extend c rest

-- `strings.HasPrefix`
unfoldable pub has_prefix : Bytes → Bytes → Bool
has_prefix s [] = true
has_prefix [] (p ∷ prefix) = false
has_prefix (c ∷ s) (p ∷ prefix) = let rest = has_prefix s prefix in if c == p then rest else false

-- The digits of a number of at most `fuel` digits, before those of `rest`.
abbrev digits : ℕ → ℕ → Bytes → Bytes
digits zero n rest = rest
digits (suc fuel) n rest =
    let more = digits fuel (n / 10) ((b'0' + n % 10) ∷ rest) in
    if ltb n 10 then (b'0' + n) ∷ rest else more

-- `strconv.Itoa`: a number `n` has at most `suc n` digits.
unfoldable pub itoa : ℤ → Bytes
itoa (pos n) = digits (suc n) n []
itoa (negsuc n) = b'-' ∷ digits (suc (suc n)) (suc n) []

abbrev pub join_after : Bytes → List Bytes → Bytes
join_after piece [] = piece
join_after piece (next ∷ pieces) = piece ++ b',' ∷ join_after next pieces

-- `strings.Join(pieces, ",")`
unfoldable pub join_pieces : List Bytes → Bytes
join_pieces [] = []
join_pieces (piece ∷ pieces) = join_after piece pieces

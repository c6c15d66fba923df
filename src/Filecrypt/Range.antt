-- ===== src/Filecrypt/Range.antt =====
-- `parseSingleRange` of server/filecrypt.go, with what it uses of `strings` and `strconv`, on the
-- characters of the header.
use hexeris_beta.Base.{
  ℕ, zero, suc, ◌+◌, ◌-◌, ◌*◌, ◌≤◌, ◌<◌, ◌≡◌, Option, none, some, Bool, true, false, List, [], ◌∷◌,
  ◌^◌, arith, ltb, leb, ◌==◌, ◌&&◌, ◌||◌, if◌then◌else◌, Bool-cases, inl, inr,
}

-- A parsed `int64`: `negsuc n` is -n, for 0 < n.
pub data ℤ : Type 0 where
  pos negsuc : ℕ → ℤ

is_space : ℕ → Bool
is_space c =
    c == b' '
    || (leb 9 c && leb c 13)
    || c == 133
    || c == 160
    || c == 5_760
    || (leb 8_192 c && leb c 8_202)
    || c == 8_232
    || c == 8_233
    || c == 8_239
    || c == 8_287
    || c == 12_288

trim_left : List ℕ → List ℕ
trim_left [] = []
trim_left (c ∷ cs) = let rest = trim_left cs in if is_space c then rest else c ∷ cs

trim_right : List ℕ → List ℕ
trim_right [] = []
trim_right (c ∷ cs) = elim (trim_right cs) [
  | [] ↦ if is_space c then [] else c ∷ []
  | d ∷ ds ↦ c ∷ d ∷ ds
]

trim_space : List ℕ → List ℕ
unfolding is_space trim_left trim_right
trim_space s = trim_left (trim_right s)

parse_digits : ℕ → List ℕ → Option ℕ
parse_digits n [] = some n
parse_digits n (c ∷ cs) =
    let rest = parse_digits (n * 10 + (c - b'0')) cs in
    if leb b'0' c && leb c b'9' then rest else none

in_range : Bool → Option ℕ → Option ℤ
in_range minus none = none
in_range true (some n) =
    if leb n (2 ^ 63) then some (if n == 0 then pos 0 else negsuc (n - 1)) else none
in_range false (some n) = if ltb n (2 ^ 63) then some (pos n) else none

unsigned : Bool → List ℕ → Option ℤ
unfolding parse_digits in_range
unsigned minus [] = none
unsigned minus (c ∷ cs) = in_range minus (parse_digits 0 (c ∷ cs))

-- `strconv.ParseInt(s, 10, 64)`
pub parse_int : List ℕ → Option ℤ
unfolding unsigned
parse_int [] = none
parse_int (c ∷ cs) =
    if c == b'-'
    then unsigned true cs
    else if c == b'+'
    then unsigned false cs
    else unsigned false (c ∷ cs)

-- `strings.TrimPrefix` behind `strings.HasPrefix`: what follows the prefix.
after_prefix : List ℕ → List ℕ → Option (List ℕ)
after_prefix [] s = some s
after_prefix (p ∷ ps) [] = none
after_prefix (p ∷ ps) (c ∷ cs) = if p == c then after_prefix ps cs else none

contains_byte : ℕ → List ℕ → Bool
contains_byte b [] = false
contains_byte b (c ∷ cs) = c == b || contains_byte b cs

-- The text before and after the first '-', if there is one.
split_dash : List ℕ → Option (List ℕ × List ℕ)
split_dash [] = none
split_dash (c ∷ cs) =
    let rest = split_dash cs in
    if c == b'-'
    then some ([], cs)
    else elim rest [ none ↦ none | some (before, behind) ↦ some (c ∷ before, behind) ]

pub suffix_range : Option ℤ → ℕ → Option (ℕ × ℕ)
suffix_range (some (pos (suc n))) size =
    let nn = if ltb size (suc n) then size else suc n in some (size - nn, size - 1)
suffix_range _ size = none

pub end_of_range : ℕ → ℕ → List ℕ → Option (ℕ × ℕ)
unfolding parse_int
end_of_range s size [] = some (s, size - 1)
end_of_range s size (c ∷ cs) = elim (parse_int (c ∷ cs)) [
  | none ↦ none
  | some (negsuc e) ↦ none
  | some (pos e) ↦ if ltb e s then none else some (s, if leb size e then size - 1 else e)
]

bounded_range : Option ℤ → ℕ → List ℕ → Option (ℕ × ℕ)
unfolding end_of_range
bounded_range (some (pos s)) size end_str = if leb size s then none else end_of_range s size end_str
bounded_range _ size end_str = none

range_of : List ℕ → List ℕ → ℕ → Option (ℕ × ℕ)
unfolding suffix_range bounded_range parse_int
range_of [] end_str size = suffix_range (parse_int end_str) size
range_of (c ∷ cs) end_str size = bounded_range (parse_int (c ∷ cs)) size end_str

-- "bytes="
abbrev bytes_prefix : List ℕ
bytes_prefix = b'b' ∷ b'y' ∷ b't' ∷ b'e' ∷ b's' ∷ b'=' ∷ []

split_range : ℕ → Option (List ℕ × List ℕ) → Option (ℕ × ℕ)
unfolding range_of trim_space
split_range size none = none
split_range size (some (before, behind)) = range_of (trim_space before) (trim_space behind) size

range_spec : ℕ → Option (List ℕ) → Option (ℕ × ℕ)
unfolding split_range contains_byte split_dash
range_spec size none = none
range_spec size (some spec) =
    if contains_byte b',' spec then none else split_range size (split_dash spec)

-- `none` is ok=false: the range is ignored. Both ends are included.
unfoldable pub parse_single_range : List ℕ → ℕ → Option (ℕ × ℕ)
unfolding range_spec after_prefix
parse_single_range header size = range_spec size (after_prefix bytes_prefix header)

suffix_range-bounds :
    (i : Option ℤ) (size s e : ℕ)
    → 0 < size
    → suffix_range i size ≡ some (s, e)
    → (s ≤ e) × (e < size)
unfolding suffix_range
suffix_range-bounds none size s e fits h = ground arith
suffix_range-bounds (some (pos zero)) size s e fits h = ground arith
suffix_range-bounds (some (pos (suc n))) size s e fits h = ground arith
suffix_range-bounds (some (negsuc n)) size s e fits h = ground arith

end_of_range-bounds :
    (a size : ℕ) (str : List ℕ) (s e : ℕ)
    → a < size
    → end_of_range a size str ≡ some (s, e)
    → (s ≤ e) × (e < size)
unfolding end_of_range
end_of_range-bounds a size [] s e fits h = ground arith
end_of_range-bounds a size (c ∷ cs) s e fits h = ground arith

bounded_range-bounds :
    (i : Option ℤ) (size : ℕ) (str : List ℕ) (s e : ℕ)
    → bounded_range i size str ≡ some (s, e)
    → (s ≤ e) × (e < size)
unfolding bounded_range
bounded_range-bounds none size str s e h = ground arith
bounded_range-bounds (some (negsuc a)) size str s e h = ground arith
bounded_range-bounds (some (pos a)) size str s e h = elim (Bool-cases (leb size a)) [
  | inl out ↦ absurd (ground arith)
  | inr within ↦ end_of_range-bounds a size str s e (ground arith) (ground arith)
]

range_of-bounds :
    (a b : List ℕ) (size s e : ℕ)
    → 0 < size
    → range_of a b size ≡ some (s, e)
    → (s ≤ e) × (e < size)
unfolding range_of
range_of-bounds [] b size s e fits h = suffix_range-bounds (parse_int b) size s e fits h
range_of-bounds (c ∷ cs) b size s e fits h = bounded_range-bounds (parse_int (c ∷ cs)) size b s e h

split_range-bounds :
    (o : Option (List ℕ × List ℕ)) (size s e : ℕ)
    → 0 < size
    → split_range size o ≡ some (s, e)
    → (s ≤ e) × (e < size)
split_range-bounds none size s e fits h = unfold split_range in cc h
split_range-bounds (some (before, behind)) size s e fits h =
    range_of-bounds (trim_space before) (trim_space behind) size s e fits (unfold split_range in h)

range_spec-bounds :
    (o : Option (List ℕ)) (size s e : ℕ)
    → 0 < size
    → range_spec size o ≡ some (s, e)
    → (s ≤ e) × (e < size)
range_spec-bounds none size s e fits h = unfold range_spec in cc h
range_spec-bounds (some spec) size s e fits h =
    unfold range_spec in ground (arith, split_range-bounds (split_dash spec) size s e fits)

-- A range that is accepted for a file of at least one byte starts at or before its end, and ends
-- inside the file.
pub parse_single_range_bounds :
    (header : List ℕ) (size s e : ℕ)
    → 0 < size
    → parse_single_range header size ≡ some (s, e)
    → (s ≤ e) × (e < size)
parse_single_range_bounds header size s e fits h =
    range_spec-bounds (after_prefix bytes_prefix header) size s e fits
      (unfold parse_single_range in h)

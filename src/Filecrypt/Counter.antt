-- ===== src/Filecrypt/Counter.antt =====
-- `addToCounter` of server/filecrypt.go: the 128-bit big-endian counter in two 64-bit words.
use hexeris_beta.Base.{
  ℕ, ◌+◌, ◌*◌, ◌%◌, ◌^◌, ◌<◌, ◌≡◌, List, [], ◌∷◌, arith, ltb, take, drop, if◌then◌else◌,
}

pub record Counter : Type 0 where
  pub hi : ℕ
  pub lo : ℕ

-- `binary.BigEndian.Uint64`
unfoldable pub word : ℕ → List ℕ → ℕ
word acc [] = acc
word acc (b ∷ bs) = word (acc * 256 + b) bs

unfoldable pub read_counter : List ℕ → Counter
unfolding word
read_counter ctr = record { hi = word 0 (take 8 ctr); lo = word 0 (take 8 (drop 8 ctr)) }

unfoldable pub add_to_counter : Counter → ℕ → Counter
add_to_counter ctr n =
    let new_lo = (ctr.lo + n) % 2 ^ 64 in
    record { hi = if ltb new_lo ctr.lo then (ctr.hi + 1) % 2 ^ 64 else ctr.hi; lo = new_lo }

abbrev pub value : Counter → ℕ
value c = c.hi * 2 ^ 64 + c.lo

-- For words and an increment below 2^64, the two words are the 128-bit sum, which wraps around.
pub value-add_to_counter :
    (c : Counter) (n : ℕ)
    → c.hi < 2 ^ 64
    → c.lo < 2 ^ 64
    → n < 2 ^ 64
    → value (add_to_counter c n) ≡ (value c + n) % 2 ^ 128
unfolding add_to_counter
value-add_to_counter c n h l m = ground arith

abbrev pub IsBytes : List ℕ → Type 0
IsBytes [] = Unit {0}
IsBytes (b ∷ bs) = (b < 256) × IsBytes bs

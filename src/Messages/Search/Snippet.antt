-- ===== src/Messages/Search/Snippet.antt =====
-- `makeSnippet` of server/search.go: its panic, and its length.
use hexeris_beta.Base.{
  ℕ, zero, suc, ◌+◌, ◌-◌, ◌≤◌, ◌<◌, ◌≡◌, refl, ap, ◌∙◌, subst, sym, Option, none, some, Bool, true,
  false, [], ◌∷◌, ◌++◌, map, take, drop, length, length-append, length-drop, ltb, leb,
  if◌then◌else◌, arith,
}
use hexeris_beta.Messages.Search.{
  Text, starts, width, bytes, index_of, next_index, runes_before, context, ellipsis, window, around,
  make_snippet,
}

width-positive : (c : ℕ) → 1 ≤ width c
unfolding width
width-positive c = ground arith

next_index-none : (o : Option ℕ) → o ≡ none → next_index o ≡ none
next_index-none o e = ap next_index e

-- An index behind the end of the text.
runes_before-behind : (i : ℕ) (body : Text) → bytes body < i → runes_before i body ≡ none
unfolding runes_before bytes
runes_before-behind zero body h = absurd (omega (arith, h))
runes_before-behind (suc i) [] h = refl
runes_before-behind (suc i) (c ∷ cs) h =
    ground (arith, h, width-positive c, runes_before-behind (suc i - width c) cs (omega (arith, h)))

-- A long text in which the lower case of what stands before the first match has more bytes than the
-- whole text makes the function panic.
pub make_snippet_panics :
    (lower : ℕ → ℕ) (body q_lower : Text) (k : ℕ)
    → context + context < length body
    → index_of q_lower (map lower body) ≡ some k
    → bytes body < bytes (take k (map lower body))
    → make_snippet lower body q_lower ≡ none
unfolding make_snippet around window
make_snippet_panics lower body q_lower k long e wide =
    let shown : leb (length body) (context + context) ≡ false = ground (arith, long) in
    rw (shown, e)
      (ap (window body) (runes_before-behind (bytes (take k (map lower body))) body wide))

runes_before-bytes :
    (lower : ℕ → ℕ) (body : Text) (k : ℕ)
    → ((c : ℕ) → width (lower c) ≡ width c)
    → k ≤ length body
    → runes_before (bytes (take k (map lower body))) body ≡ some k
unfolding bytes runes_before
runes_before-bytes lower body zero keeps h = refl
runes_before-bytes lower [] (suc k) keeps h = absurd (omega (arith, h))
runes_before-bytes lower (c ∷ cs) (suc k) keeps h =
    step (width (lower c) + bytes (take k (map lower cs))) refl
      (runes_before-bytes lower cs k keeps (omega (arith, h)))
  where
    step :
        (i : ℕ)
        → i ≡ width (lower c) + bytes (take k (map lower cs))
        → runes_before (bytes (take k (map lower cs))) cs ≡ some k
        → runes_before i (c ∷ cs) ≡ some (suc k)
    step zero e ih = absurd (omega (arith, width-positive (lower c), e))
    step (suc i) e ih =
        let small : ltb (suc i) (width c) ≡ false = ground (arith, e, keeps c) in
        let left_over : suc i - width c ≡ bytes (take k (map lower cs)) =
          omega (arith, e, keeps c) in
        ap
          (λ (b : Bool). if b then some (suc i) else next_index (runes_before (suc i - width c) cs))
          small
        ∙ ap (λ (j : ℕ). next_index (runes_before j cs)) left_over
        ∙ ap next_index ih

abbrev Within : ℕ → Option ℕ → Type 0
Within n none = Unit {0}
Within n (some k) = k ≤ n

index_of-Within : (q text : Text) → Within (length text) (index_of q text)
unfolding index_of
index_of-Within q [] = by_test (starts q [])
  where
    by_test : (b : Bool) → Within 0 (if b then some 0 else none)
    by_test true = omega arith
    by_test false = tt
index_of-Within q (c ∷ cs) = by_test (starts q (c ∷ cs)) (index_of q cs) (index_of-Within q cs)
  where
    by_test :
        (b : Bool) (o : Option ℕ)
        → Within (length cs) o
        → Within (suc (length cs)) (if b then some 0 else next_index o)
    by_test true o h = omega arith
    by_test false none h = tt
    by_test false (some k) h = omega (arith, h)

length-map : (f : ℕ → ℕ) (xs : Text) → length (map f xs) ≡ length xs
length-map f [] = refl
length-map f (x ∷ xs) = omega (arith, length-map f xs)

length-take_bound : (n : ℕ) (xs : Text) → length (take n xs) ≤ n
length-take_bound zero xs = omega arith
length-take_bound (suc n) [] = omega arith
length-take_bound (suc n) (x ∷ xs) = omega (arith, length-take_bound n xs)

-- A snippet, of at most 122 characters.
abbrev pub Short : Option Text → Type 0
Short none = ⊥
Short (some t) = length t ≤ context + context + 2

window-Short : (body : Text) (pos : ℕ) → Short (window body (some pos))
unfolding window
window-Short body pos = by_tests (leb pos context) (leb (length body) (pos + context)) refl
  where
    rest : Text
    rest = drop (pos - context) body

    part : Text
    part = take (pos + context - (pos - context)) rest

    pre : Bool → Text
    pre b = if b then [] else ellipsis

    length-pre : (b : Bool) → length (pre b) ≤ 1
    length-pre true = omega arith
    length-pre false = omega arith

    by_tests :
        (b c : Bool)
        → leb (length body) (pos + context) ≡ c
        → length (pre b ++ (if c then rest else part ++ ellipsis)) ≤ context + context + 2
    by_tests b true e =
        let near : length body ≤ pos + context = ground (arith, e) in
        omega
          (arith, length-append (pre b) rest, length-pre b, length-drop (pos - context) body, near)
    by_tests b false e = omega (
      arith,
      length-append (pre b) (part ++ ellipsis),
      length-append part ellipsis,
      length-pre b,
      length-take_bound (pos + context - (pos - context)) rest,
    )

around-Short :
    (lower : ℕ → ℕ) (body : Text) (o : Option ℕ)
    → ((c : ℕ) → width (lower c) ≡ width c)
    → Within (length body) o
    → Short (around lower body o)
unfolding around
around-Short lower body none keeps h = omega (
  arith,
  length-append (take (context + context) body) ellipsis,
  length-take_bound (context + context) body,
)
around-Short lower body (some k) keeps h =
    subst (λ (o : Option ℕ). Short (window body o)) (sym (runes_before-bytes lower body k keeps h))
      (window-Short body k)

-- Where the lower case of a character has as many bytes as the character, the function returns a
-- snippet for every text and query, and it has at most 122 characters.
pub make_snippet-Short :
    (lower : ℕ → ℕ) (body q_lower : Text)
    → ((c : ℕ) → width (lower c) ≡ width c)
    → Short (make_snippet lower body q_lower)
unfolding make_snippet
make_snippet-Short lower body q_lower keeps = by_test (leb (length body) (context + context)) refl (
    subst (λ (n : ℕ). Within n (index_of q_lower (map lower body))) (length-map lower body)
      (index_of-Within q_lower (map lower body)))
  where
    by_test :
        (b : Bool)
        → leb (length body) (context + context) ≡ b
        → Within (length body) (index_of q_lower (map lower body))
        → Short (if b then some body else around lower body (index_of q_lower (map lower body)))
    by_test true e h = ground (arith, e)
    by_test false e h = around-Short lower body _ keeps h

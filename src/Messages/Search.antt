-- ===== src/Messages/Search.antt =====
-- server/search.go: the user's messages are scanned and decrypted from the newest on.
pub mod Snippet
pub mod Rounds
pub mod Found
pub mod Full
use Prim.Native.Nat.{◌-◌}
use hexeris_beta.Base.{
  ℕ, zero, suc, ◌+◌, String, Option, none, some, Bool, true, false, not, List, [], ◌∷◌, ◌++◌, map,
  take, drop, length, ltb, leb, ◌==◌, ◌=s=◌, ◌&&◌, ◌||◌, if◌then◌else◌,
}
use hexeris_beta.Groups.Store.{is_group}
use hexeris_beta.Limiter.{RateLimiter, is_blocked, record_failure}
use hexeris_beta.Messages.Table.{Row, Table, last, one_of}

-- The characters of a text.
abbrev pub Text : Type 0
Text = List ℕ

-- `unicode.ToLower`, the characters of a string, `decryptBody`, `PathUnescape`, `path.Base`, the
-- groups of the user (the subquery), whether the queries work, and the clock.
pub record Source : Type 0 where
  pub lower : ℕ → ℕ
  pub runes : String → Text
  pub decrypt_body : String → String
  pub path_unescape : Text → Option Text
  pub path_base : Text → Text
  pub group_ids : String → List String
  pub up : Bool
  pub now_unix : ℕ

-- The bytes of a character in UTF-8.
unfoldable pub width : ℕ → ℕ
width c = if ltb c 128 then 1 else if ltb c 2_048 then 2 else if ltb c 65_536 then 3 else 4

unfoldable pub bytes : Text → ℕ
unfolding width
bytes [] = 0
bytes (c ∷ cs) = width c + bytes cs

unfoldable pub starts : Text → Text → Bool
starts [] text = true
starts (c ∷ cs) [] = false
starts (c ∷ cs) (d ∷ ds) = c == d && starts cs ds

abbrev next_index : Option ℕ → Option ℕ
next_index none = none
next_index (some k) = some (suc k)

-- `strings.Index`, in characters.
unfoldable pub index_of : Text → Text → Option ℕ
unfolding starts
index_of q [] = if starts q [] then some 0 else none
index_of q (c ∷ cs) =
    let later = index_of q cs in if starts q (c ∷ cs) then some 0 else next_index later

abbrev is_found : Option ℕ → Bool
is_found none = false
is_found (some k) = true

unfoldable pub contains : Text → Text → Bool
unfolding index_of
contains q text = is_found (index_of q text)

-- `len([]rune(body[:i]))`: the bytes of a character that is cut count one each; `none` is the panic
-- of an index behind the end.
unfoldable pub runes_before : ℕ → Text → Option ℕ
unfolding width
runes_before zero body = some 0
runes_before (suc i) [] = none
runes_before (suc i) (c ∷ cs) =
    let later = runes_before (suc i - width c) cs in
    if ltb (suc i) (width c) then some (suc i) else next_index later

abbrev pub context : ℕ
context = 60

-- "…"
abbrev pub ellipsis : Text
ellipsis = 8_230 ∷ []

unfoldable pub window : Text → Option ℕ → Option Text
window body none = none
window body (some pos) =
    let start = pos - context in
    let pre : Text = if leb pos context then [] else ellipsis in
    let rest = drop start body in
    let shown : Text =
      if leb (length body) (pos + context)
      then rest
      else take (pos + context - start) rest ++ ellipsis in
    some (pre ++ shown)

abbrev lowered : (ℕ → ℕ) → Text → Text
lowered lower body = map lower body

unfoldable pub around : (ℕ → ℕ) → Text → Option ℕ → Option Text
unfolding window runes_before bytes
around lower body none = some (take (context + context) body ++ ellipsis)
around lower body (some k) = window body (runes_before (bytes (take k (map lower body))) body)

-- `none` is a panic.
unfoldable pub make_snippet : (ℕ → ℕ) → Text → Text → Option Text
unfolding around index_of
make_snippet lower body q_lower =
    if leb (length body) (context + context)
    then some body
    else around lower body (index_of q_lower (map lower body))

-- The text behind the last `#`, and what stands before it.
unfoldable pub split_hash : Text → Option (Text × Text)
split_hash [] = none
split_hash (c ∷ cs) = elim (split_hash cs) [
  | none ↦ if c == 35 then some ([], cs) else none
  | some parts ↦ some (c ∷ parts.0, parts.1)
]

abbrev or_else {ℓ} : {A : Type ℓ} → Option A → A → A
or_else none a = a
or_else (some b) a = b

abbrev named : Text → Text → Text
named [] base = base
named (c ∷ cs) base = c ∷ cs

-- "/files/"
abbrev files_prefix : Text
files_prefix = 47 ∷ 102 ∷ 105 ∷ 108 ∷ 101 ∷ 115 ∷ 47 ∷ []

pub data Match : Type 0 where
  no_match panics : Match
  snippet : Text → Match

abbrev as_match : Option Text → Match
as_match none = panics
as_match (some t) = snippet t

pub record Hit : Type 0 where
  pub row : Row
  pub peer : String
  pub text : Text

pub record Scan : Type 0 where
  pub hits : List Hit
  pub scanned : ℕ
  pub cursor : ℕ
  pub exhausted : Bool

abbrev pub scan_batch : ℕ
scan_batch = 2_000

abbrev pub max_scan : ℕ
max_scan = 20_000

abbrev pub scan_rounds : ℕ
scan_rounds = 10

abbrev pub scan_from : ℕ → Scan
scan_from cursor = record { hits = []; scanned = 0; cursor = cursor; exhausted = false }

abbrev pub max_hits : ℕ
max_hits = 30

pub data Answer : Type 0 where
  refused : ℕ → Answer
  crashed : Answer
  results : List Hit → ℕ → ℕ → Answer

unfoldable pub running : Scan → Bool
running sc = ltb sc.scanned max_scan && ltb (length sc.hits) max_hits && not sc.exhausted

abbrev pub passed : Row → Scan → Scan
passed r sc = record sc { scanned = sc.scanned + 1; cursor = r.seq }

unfoldable pub end_round : Option (ℕ × Scan) → Option Scan
end_round none = none
end_round (some (got, sc)) =
    some (if ltb got scan_batch then record sc { exhausted = true } else sc)

abbrev pub and_then {ℓ κ} : {A : Type ℓ} → {B : Type κ} → Option A → (A → Option B) → Option B
and_then none f = none
and_then (some a) f = f a

unfoldable pub answer_scan : Option Scan → Answer
answer_scan none = crashed
answer_scan (some sc) = results sc.hits (if sc.exhausted then 0 else sc.cursor) sc.scanned

module _ (s : Source) where
  unfoldable pub file_search_name : Text → Text
  unfolding split_hash
  file_search_name body = elim (split_hash body) [
    | none ↦ s.path_base body
    | some parts ↦ named (or_else (s.path_unescape parts.1) parts.1) (s.path_base parts.0)
  ]

  -- What is searched of a row, if it is searched at all.
  unfoldable pub searched_text : Row → Option Text
  unfolding file_search_name starts
  searched_text r =
      if r.media_type =s= ""
      then some (s.runes (s.decrypt_body r.body))
      else if starts files_prefix (s.runes r.body)
      then some (file_search_name (s.runes r.body))
      else none

  unfoldable pub match_in : Bool → Text → Option Text → Match
  unfolding contains make_snippet
  match_in is_text q_lower none = no_match
  match_in is_text q_lower (some t) =
      if not (contains q_lower (map s.lower t))
      then no_match
      else if is_text
      then as_match (make_snippet s.lower t q_lower)
      else snippet t

  unfoldable pub match_row : Text → Row → Match
  unfolding match_in searched_text
  match_row q_lower r = match_in (r.media_type =s= "") q_lower (searched_text r)

  unfoldable pub hit_peer : String → Row → String
  hit_peer me r =
      if is_group r.recipient
      then r.recipient
      else if not (r.sender =s= me)
      then r.sender
      else r.recipient

  unfoldable pub found : String → Row → Text → Scan → Scan
  unfolding hit_peer
  found me r t sc = record sc {
    hits = sc.hits ++ record { row = r; peer = hit_peer me r; text = t } ∷ [];
  }

  unfoldable pub after_match :
      String → Row → Match → ℕ → Scan → (Scan → Option (ℕ × Scan)) → Option (ℕ × Scan)
  unfolding found
  after_match me r no_match got sc go_on = go_on sc
  after_match me r panics got sc go_on = none
  after_match me r (snippet t) got sc go_on =
      let full = leb max_hits (length (found me r t sc).hits) in
      let rest = go_on (found me r t sc) in if full then some (got, found me r t sc) else rest

  -- The rows of one batch; `none` is a panic.
  unfoldable pub scan_rows : String → Text → Table → ℕ → Scan → Option (ℕ × Scan)
  unfolding match_row after_match
  scan_rows me q_lower [] got sc = some (got, sc)
  scan_rows me q_lower (r ∷ rs) got sc =
      after_match me r (match_row q_lower r) (got + 1) (passed r sc)
        (λ next. scan_rows me q_lower rs (got + 1) next)

  unfoldable pub in_scan : String → ℕ → Row → Bool
  unfolding one_of
  in_scan me cursor r =
      (r.sender =s= me || r.recipient =s= me || one_of r.recipient (s.group_ids me))
      && ltb r.seq cursor
      && not r.deleted

  unfoldable pub scan_round : String → Text → Table → Scan → Option Scan
  unfolding scan_rows in_scan end_round last
  scan_round me q_lower t sc =
      end_round (scan_rows me q_lower (last scan_batch (in_scan me sc.cursor) t) 0 sc)

  -- At most so many rounds.
  unfoldable pub scan_loop : ℕ → String → Text → Table → Scan → Option Scan
  unfolding scan_round running
  scan_loop zero me q_lower t sc = some sc
  scan_loop (suc n) me q_lower t sc =
      let rest = and_then (scan_round me q_lower t sc) (λ next. scan_loop n me q_lower t next) in
      if running sc then rest else some sc

  -- `before` is the cursor of the request, or 2^62 - 1; the query is trimmed.
  unfoldable pub search_handler : String → Text → ℕ → Table → RateLimiter → Answer × RateLimiter
  unfolding scan_loop answer_scan is_blocked record_failure
  search_handler me q before t limiter =
      let (blocked, checked) = is_blocked limiter s.now_unix me in
      if blocked
      then (refused 429, checked)
      else if ltb (length q) 2
      then (refused 400, checked)
      else (
        if not s.up
            then refused 500
            else answer_scan (scan_loop scan_rounds me (map s.lower q) t (scan_from before)),
        record_failure checked s.now_unix me,
      )

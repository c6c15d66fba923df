-- ===== src/Examples/Search.antt =====
-- server/search.go with short texts.
use hexeris_beta.Base.{
  ℕ, zero, suc, ◌+◌, ◌≡◌, refl, String, Option, none, some, Bool, true, false, List, [], ◌∷◌, ◌++◌,
  map, take, length, ltb, ◌==◌, ◌=s=◌, if◌then◌else◌, arith,
}
use hexeris_beta.Limiter.{RateLimiter, new_limiter, is_blocked}
use hexeris_beta.Messages.Table.{Row, Table, descending, last}
use hexeris_beta.Messages.Search.{
  Text, Source, Hit, results, bytes, index_of, make_snippet, match_row, in_scan, max_hits,
  search_handler,
}
use hexeris_beta.Messages.Search.Full.{AllMatch, search_handler-AllMatch}
use hexeris_beta.Messages.Search.Found.{AllSound, hits_of, search_handler-AllSound}
use hexeris_beta.Messages.Search.Snippet.{make_snippet_panics}

abbrev source : Source
source = record {
  lower = λ c. if c == 570 then 11_365 else c;
  runes = λ text. if text =s= "hello" then 104 ∷ 101 ∷ 108 ∷ 108 ∷ 111 ∷ [] else [];
  decrypt_body = λ body. body;
  path_unescape = λ text. some text;
  path_base = λ text. text;
  group_ids = λ user. [];
  up = true;
  now_unix = 9;
}

-- "he"
abbrev query : Text
query = 104 ∷ 101 ∷ []

abbrev row : ℕ → Row
row seq = record {
  seq = seq;
  id = "m";
  sender = "ann";
  recipient = "bob";
  body = "hello";
  media_type = "";
  reply_to = "";
  forwarded = false;
  delivered = false;
  read = false;
  deleted = false;
  edited = false;
  created_at = seq;
}

-- The rows above `from`, the newest first.
block : ℕ → ℕ → Table
block from zero = []
block from (suc n) = row (from + suc n) ∷ block from n

abbrev table : Table
table = descending (block 0 31)

block-AllMatch : (from n : ℕ) → AllMatch source "ann" query (block from n)
unfolding match_row block
block-AllMatch from zero = tt
block-AllMatch from (suc n) = ((104 ∷ 101 ∷ 108 ∷ 108 ∷ 111 ∷ [], refl), block-AllMatch from n)

-- The thirty-first message has the word too.
search_handler-AllMatch_example :
    (hits : List Hit) × ((search_handler source "ann" query 99 table (new_limiter 30 60)).0
      ≡ results hits 0 max_hits)
    × (length hits ≡ max_hits)
unfolding block descending last in_scan is_blocked new_limiter hexeris_beta.Limiter.live
    hexeris_beta.Limiter.attempts_of hexeris_beta.Base.Dict.lookup
search_handler-AllMatch_example =
    search_handler-AllMatch source "ann" query 99 table (new_limiter 30 60) (row 31) (block 1 29)
      (block 0 1) refl refl refl refl refl (block-AllMatch 1 30)

search_handler-AllSound_example :
    AllSound source "ann"
      (map source.lower query)
      (hits_of (search_handler source "ann" query 99 table (new_limiter 30 60)).0)
search_handler-AllSound_example =
    search_handler-AllSound source "ann" query 99 table (new_limiter 30 60)

repeated : ℕ → ℕ → Text → Text
repeated zero c rest = rest
repeated (suc n) c rest = c ∷ repeated n c rest

-- U+023A has two bytes, and its lower case U+2C65 has three.
make_snippet_panics_example : make_snippet source.lower (repeated 130 570 query) query ≡ none
unfolding repeated index_of bytes
make_snippet_panics_example =
    make_snippet_panics source.lower (repeated 130 570 query) query 130 (omega arith) refl
      (omega arith)

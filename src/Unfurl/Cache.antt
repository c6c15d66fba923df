-- ===== src/Unfurl/Cache.antt =====
-- The cache of server/unfurlcache.go: the map in memory, the table, and the fetches under way.
use hexeris_beta.Base.{
  ℕ, ◌+◌, ◌-◌, ◌/◌, String, Option, none, some, Bool, true, false, not, List, [], ◌∷◌, ◌++◌, take,
  drop, length, ltb, leb, ◌=s=◌, ◌||◌, if◌then◌else◌,
}
use hexeris_beta.Base.Dict.{Dict, lookup, insert, delete}

pub record UnfurlResult : Type 0 where
  pub url : String
  pub title : String
  pub description : String
  pub image : String
  pub site : String

pub record UnfurlEntry : Type 0 where
  pub res : UnfurlResult
  pub ok : Bool
  pub at : ℕ

-- Seconds.
abbrev pub unfurl_ttl : ℕ
unfurl_ttl = 21_600

abbrev pub unfurl_fail_ttl : ℕ
unfurl_fail_ttl = 900

abbrev pub unfurl_cache_cap : ℕ
unfurl_cache_cap = 500

abbrev pub unfurl_db_cap : ℕ
unfurl_db_cap = 20_000

unfoldable pub fresh : ℕ → UnfurlEntry → Bool
fresh now e = ltb now (e.at + (if e.ok then unfurl_ttl else unfurl_fail_ttl))

abbrev pub Entries : Type 0
Entries = Dict UnfurlEntry

-- The map and the table.
pub record UnfurlCache : Type 0 where
  pub unfurl_mem : Entries
  pub unfurl_cache : Entries

-- `sort.Slice` by time; it leaves the order of equal times open.
unfoldable pub place : String × UnfurlEntry → Entries → Entries
place e [] = e ∷ []
place e (x ∷ xs) = let later = place e xs in if leb e.1.at x.1.at then e ∷ x ∷ xs else x ∷ later

unfoldable pub sort_by_time : Entries → Entries
unfolding place
sort_by_time [] = []
sort_by_time (e ∷ es) = place e (sort_by_time es)

unfoldable pub delete_each : Entries → Entries → Entries
delete_each [] mem = mem
delete_each (e ∷ es) mem = delete_each es (delete e.0 mem)

unfoldable pub evict_oldest : Entries → Entries
unfolding sort_by_time delete_each
evict_oldest mem = delete_each (take (length mem / 2) (sort_by_time mem)) mem

unfoldable pub mem_put : String → UnfurlEntry → Entries → Entries
unfolding evict_oldest
mem_put key e mem =
    if leb unfurl_cache_cap (length mem) then insert key e (evict_oldest mem) else insert key e mem

-- A row of the table has no address of its own.
abbrev pub read_row : String → UnfurlEntry → UnfurlEntry
read_row key e = record { res = record e.res { url = key }; ok = e.ok; at = e.at }

unfoldable pub lookup_row :
    ℕ → String → Option UnfurlEntry → UnfurlCache → Option UnfurlEntry × UnfurlCache
unfolding mem_put fresh
lookup_row now key none c = (none, c)
lookup_row now key (some row) c = if not (fresh now row) then (none, c) else (
  some (read_row key row),
  record c { unfurl_mem = mem_put key (read_row key row) c.unfurl_mem },
)

-- `up` says whether the query works.
unfoldable pub lookup_table : Bool → ℕ → String → UnfurlCache → Option UnfurlEntry × UnfurlCache
unfolding lookup_row
lookup_table up now key c =
    if up then lookup_row now key (lookup key c.unfurl_cache) c else (none, c)

unfoldable pub from_memory :
    Bool → ℕ → String → Option UnfurlEntry → UnfurlCache → Option UnfurlEntry × UnfurlCache
unfolding lookup_table fresh
from_memory up now key none c = lookup_table up now key c
from_memory up now key (some e) c = if fresh now e then (some e, c) else lookup_table up now key c

unfoldable pub unfurl_lookup : Bool → ℕ → String → UnfurlCache → Option UnfurlEntry × UnfurlCache
unfolding from_memory
unfurl_lookup up now key c = from_memory up now key (lookup key c.unfurl_mem) c

unfoldable pub unfurl_store : Bool → ℕ → String → UnfurlResult → Bool → UnfurlCache → UnfurlCache
unfolding mem_put
unfurl_store up now key res ok c =
    let e : UnfurlEntry = record { res = res; ok = ok; at = now } in
    record {
      unfurl_mem = mem_put key e c.unfurl_mem;
      unfurl_cache = if up then insert key e c.unfurl_cache else c.unfurl_cache;
    }

-- `DELETE … WHERE` an entry is older than its TTL.
unfoldable pub drop_stale : ℕ → Entries → Entries
drop_stale now [] = []
drop_stale now ((key, e) ∷ rest) =
    let later = drop_stale now rest in
    if ltb (e.at + (if e.ok then unfurl_ttl else unfurl_fail_ttl)) now
    then later
    else (key, e) ∷ later

unfoldable pub newest_first : Entries → Entries
newest_first [] = []
newest_first (e ∷ es) = newest_first es ++ e ∷ []

-- `ORDER BY fetched_at DESC OFFSET $1`, deleted.
unfoldable pub drop_surplus : Entries → Entries
unfolding delete_each newest_first sort_by_time
drop_surplus rows = delete_each (drop unfurl_db_cap (newest_first (sort_by_time rows))) rows

-- The table that is left, and the number of stale rows; `up_cap` is for the second statement.
unfoldable pub clean_unfurl_cache : Bool → Bool → ℕ → Entries → ℕ × Entries
unfolding drop_stale drop_surplus
clean_unfurl_cache up up_cap now rows =
    let kept = drop_stale now rows in
    if up
    then (length rows - length kept, if up_cap then drop_surplus kept else kept)
    else (0, rows)

-- The keys that someone fetches; a channel that closes is not kept here.
unfoldable pub under_way : String → List String → Bool
under_way key [] = false
under_way key (k ∷ ks) = k =s= key || under_way key ks

unfoldable pub begin_fetch : String → List String → Bool × List String
unfolding under_way
begin_fetch key flight = if under_way key flight then (false, flight) else (true, key ∷ flight)

unfoldable pub end_fetch : String → List String → List String
end_fetch key [] = []
end_fetch key (k ∷ ks) = let later = end_fetch key ks in if k =s= key then later else k ∷ later

-- ===== src/Unfurl/Bound.antt =====
-- The size of the map in memory of server/unfurlcache.go.
use hexeris_beta.Base.{
  ℕ, suc, zero, ◌/◌, ◌≤◌, ◌<◌, ◌≡◌, refl, String, Option, none, some, Bool, true, false, List, [],
  ◌∷◌, take, length, leb, if◌then◌else◌, arith, ◌⊎◌, inl, inr, eq_iff,
}
use hexeris_beta.Base.Dict.{lookup, insert, delete}
use hexeris_beta.Unfurl.Cache.{
  UnfurlResult, UnfurlEntry, Entries, UnfurlCache, unfurl_cache_cap, place, sort_by_time,
  delete_each, evict_oldest, mem_put, read_row, lookup_row, lookup_table, from_memory,
  unfurl_lookup, unfurl_store,
}

abbrev HasKey : String → Entries → Type 0
HasKey key [] = ⊥
HasKey key (e ∷ es) = (e.0 ≡ key) ⊎ HasKey key es

length-insert :
    (key : String) (v : UnfurlEntry) (es : Entries) → length (insert key v es) ≤ suc (length es)
unfolding insert
length-insert key v [] = omega arith
length-insert key v (e ∷ es) = ground (arith, length-insert key v es)

length-delete : (key : String) (es : Entries) → length (delete key es) ≤ length es
unfolding delete
length-delete key [] = omega arith
length-delete key (e ∷ es) = ground (arith, length-delete key es)

length-delete_present :
    (key : String) (es : Entries) → HasKey key es → length (delete key es) < length es
unfolding delete
length-delete_present key [] h = elim h [ ]
length-delete_present key (e ∷ es) (inl same) =
    ground (arith, length-delete key es, eq_iff e.0 key, same)
length-delete_present key (e ∷ es) (inr h) = ground (arith, length-delete_present key es h)

length-delete_each : (gone es : Entries) → length (delete_each gone es) ≤ length es
unfolding delete_each
length-delete_each [] es = omega arith
length-delete_each (g ∷ gs) es =
    omega (arith, length-delete_each gs (delete g.0 es), length-delete g.0 es)

-- A list starts with an entry of another one.
abbrev Heads : Entries → Entries → Type 0
Heads [] es = ⊥
Heads (x ∷ xs) es = HasKey x.0 es

Heads-place :
    (e : String × UnfurlEntry) (xs es : Entries)
    → HasKey e.0 es
    → Heads xs es ⊎ (xs ≡ [])
    → Heads (place e xs) es
unfolding place
Heads-place e [] es h k = h
Heads-place e (x ∷ xs) es h (inr k) = absurd (cc k)
Heads-place e (x ∷ xs) es h (inl k) = by_test (leb e.1.at x.1.at)
  where
    by_test : (b : Bool) → Heads (if b then e ∷ x ∷ xs else x ∷ place e xs) es
    by_test true = h
    by_test false = k

Heads-weaken :
    (xs : Entries) (e : String × UnfurlEntry) (es : Entries) → Heads xs es → Heads xs (e ∷ es)
Heads-weaken [] e es h = elim h [ ]
Heads-weaken (x ∷ xs) e es h = inr h

Heads-sort_by_time :
    (e : String × UnfurlEntry) (es : Entries) → Heads (sort_by_time (e ∷ es)) (e ∷ es)
unfolding sort_by_time
Heads-sort_by_time e [] = Heads-place e [] (e ∷ []) (inl refl) (inr refl)
Heads-sort_by_time e (x ∷ xs) =
    Heads-place e (sort_by_time (x ∷ xs)) (e ∷ x ∷ xs) (inl refl)
      (inl (Heads-weaken (sort_by_time (x ∷ xs)) e (x ∷ xs) (Heads-sort_by_time x xs)))

length-delete_each_less :
    (n : ℕ) (gone es : Entries)
    → Heads gone es
    → length (delete_each (take (suc n) gone) es) < length es
unfolding delete_each
length-delete_each_less n [] es h = elim h [ ]
length-delete_each_less n (g ∷ gs) es h =
    omega (arith, length-delete_each (take n gs) (delete g.0 es), length-delete_present g.0 es h)

length-evict_oldest : (es : Entries) → 2 ≤ length es → length (evict_oldest es) < length es
unfolding evict_oldest
length-evict_oldest [] h = absurd (omega (arith, h))
length-evict_oldest (e ∷ es) h = by_half (length (e ∷ es) / 2) refl
  where
    by_half :
        (n : ℕ)
        → n ≡ length (e ∷ es) / 2
        → length (delete_each (take n (sort_by_time (e ∷ es))) (e ∷ es)) < length (e ∷ es)
    by_half zero k = absurd (omega (arith, k, h))
    by_half (suc n) k =
        length-delete_each_less n (sort_by_time (e ∷ es)) (e ∷ es) (Heads-sort_by_time e es)

abbrev Small : Entries → Type 0
Small es = length es ≤ unfurl_cache_cap

mem_put-Small :
    (key : String) (v : UnfurlEntry) (es : Entries) → Small es → Small (mem_put key v es)
unfolding mem_put
mem_put-Small key v es h = by_test (leb unfurl_cache_cap (length es)) refl
  where
    by_test :
        (b : Bool)
        → leb unfurl_cache_cap (length es) ≡ b
        → Small (if b then insert key v (evict_oldest es) else insert key v es)
    by_test true e =
        let full : unfurl_cache_cap ≤ length es = ground (arith, e) in
        omega (
          arith,
          length-insert key v (evict_oldest es),
          length-evict_oldest es (omega (arith, full)),
          h,
        )
    by_test false e =
        let room : length es < unfurl_cache_cap = ground (arith, e) in
        omega (arith, length-insert key v es, room)

-- The calls that write the map.
pub data Call : Type 0 where
  look : Bool → ℕ → String → Call
  store : Bool → ℕ → String → UnfurlResult → Bool → Call

unfoldable pub after_call : Call → UnfurlCache → UnfurlCache
unfolding unfurl_lookup unfurl_store
after_call (look up now key) c = (unfurl_lookup up now key c).1
after_call (store up now key res ok) c = unfurl_store up now key res ok c

unfoldable pub after_calls : List Call → UnfurlCache → UnfurlCache
unfolding after_call
after_calls [] c = c
after_calls (call ∷ calls) c = after_calls calls (after_call call c)

lookup_row-Small :
    (now : ℕ) (key : String) (o : Option UnfurlEntry) (c : UnfurlCache)
    → Small c.unfurl_mem
    → Small (lookup_row now key o c).1.unfurl_mem
unfolding lookup_row
lookup_row-Small now key none c h = h
lookup_row-Small now key (some row) c h =
    ground (arith, mem_put-Small key (read_row key row) c.unfurl_mem h, h)

lookup_table-Small :
    (up : Bool) (now : ℕ) (key : String) (c : UnfurlCache)
    → Small c.unfurl_mem
    → Small (lookup_table up now key c).1.unfurl_mem
unfolding lookup_table
lookup_table-Small true now key c h = lookup_row-Small now key (lookup key c.unfurl_cache) c h
lookup_table-Small false now key c h = h

from_memory-Small :
    (up : Bool) (now : ℕ) (key : String) (o : Option UnfurlEntry) (c : UnfurlCache)
    → Small c.unfurl_mem
    → Small (from_memory up now key o c).1.unfurl_mem
unfolding from_memory
from_memory-Small up now key none c h = lookup_table-Small up now key c h
from_memory-Small up now key (some e) c h = ground (arith, h, lookup_table-Small up now key c h)

after_call-Small :
    (call : Call) (c : UnfurlCache) → Small c.unfurl_mem → Small (after_call call c).unfurl_mem
unfolding after_call unfurl_lookup unfurl_store
after_call-Small (store up now key res ok) c h = mem_put-Small key _ c.unfurl_mem h
after_call-Small (look up now key) c h = from_memory-Small up now key (lookup key c.unfurl_mem) c h

-- The map in memory never has more than 500 entries, whatever is looked up and stored.
pub after_calls-Small :
    (calls : List Call) (c : UnfurlCache)
    → length c.unfurl_mem ≤ unfurl_cache_cap
    → length (after_calls calls c).unfurl_mem ≤ unfurl_cache_cap
unfolding after_calls
after_calls-Small [] c h = h
after_calls-Small (call ∷ calls) c h =
    after_calls-Small calls (after_call call c) (after_call-Small call c h)

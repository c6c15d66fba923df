-- ===== src/Unfurl/Remembered.antt =====
-- A link that was fetched a moment ago (server/unfurl.go, server/unfurlcache.go).
use hexeris_beta.Base.{
  ℕ, ◌+◌, ◌<◌, ◌≡◌, refl, ap, ◌∙◌, String, Option, some, Bool, true, false, leb, ◌=s=◌, length,
  if◌then◌else◌, eq_iff, arith,
}
use hexeris_beta.Base.Dict.{lookup, insert, lookup-insert}
use hexeris_beta.Unfurl.Cache.{
  UnfurlResult, UnfurlEntry, Entries, unfurl_ttl, unfurl_fail_ttl, unfurl_cache_cap, fresh,
  evict_oldest, mem_put, lookup_table, from_memory, unfurl_lookup, unfurl_store,
}
use hexeris_beta.Unfurl.Handler.{
  UnfurlState, Reply, refused, preview, answered, Fetched, unreachable, not_previewable, page, kept,
  unfurl_serve, found_or_miss, unfurl_handler, reply_of, unfurl_fetched,
}

lookup-insert_same :
    (key : String) (e : UnfurlEntry) (es : Entries) → lookup key (insert key e es) ≡ some e
lookup-insert_same key e es =
    let same : (key =s= key) ≡ true = (eq_iff key key).1 refl in
    rw (lookup-insert key key e es, same) refl

lookup-mem_put :
    (key : String) (e : UnfurlEntry) (es : Entries) → lookup key (mem_put key e es) ≡ some e
unfolding mem_put
lookup-mem_put key e es = by_test (leb unfurl_cache_cap (length es))
  where
    by_test :
        (b : Bool)
        → lookup key (if b then insert key e (evict_oldest es) else insert key e es) ≡ some e
    by_test true = lookup-insert_same key e (evict_oldest es)
    by_test false = lookup-insert_same key e es

-- How long the outcome of a fetch is remembered.
abbrev pub remembered_for : Fetched → ℕ
remembered_for unreachable = unfurl_fail_ttl
remembered_for not_previewable = unfurl_fail_ttl
remembered_for (page res) = unfurl_ttl

-- The answer from memory: one for both failures.
abbrev pub reply_again : Fetched → Reply
reply_again unreachable = refused 422
reply_again not_previewable = refused 422
reply_again (page res) = preview res

abbrev entry_of : ℕ → UnfurlResult → Bool → UnfurlEntry
entry_of now res ok = record { res = res; ok = ok; at = now }

-- A fresh entry answers, and nothing else happens.
unfurl_handler-hit :
    (up : Bool) (now : ℕ) (username key : String) (e : UnfurlEntry) (s : UnfurlState)
    → lookup key s.cache.unfurl_mem ≡ some e
    → fresh now e ≡ true
    → unfurl_handler up now username true key s ≡ (answered (unfurl_serve e), s)
unfolding unfurl_handler unfurl_lookup from_memory found_or_miss
unfurl_handler-hit up now username key e s found young =
    ap
      (λ (o : Option UnfurlEntry).
        found_or_miss now username key s (from_memory up now key o s.cache))
      found
    ∙ ap
        (λ (b : Bool).
          found_or_miss now username key s
            (if b then (some e, s.cache) else lookup_table up now key s.cache))
        young

stored-hit :
    (up up' ok : Bool) (now later : ℕ) (username key raw site : String) (fetched : Fetched)
    (res : UnfurlResult) (s : UnfurlState)
    → kept raw site fetched ≡ (res, ok)
    → fresh later (entry_of now res ok) ≡ true
    → let after = (unfurl_fetched up now key raw site fetched s).1 in
      unfurl_handler up' later username true key after
      ≡ (answered (unfurl_serve (entry_of now res ok)), after)
unfolding unfurl_fetched unfurl_store
stored-hit up up' ok now later username key raw site fetched res s e young =
    unfurl_handler-hit up' later username key (entry_of now res ok)
      (unfurl_fetched up now key raw site fetched s).1
      (ap
          (λ (r : UnfurlResult × Bool).
            lookup key (mem_put key (entry_of now r.0 r.1) s.cache.unfurl_mem))
          e
        ∙ lookup-mem_put key (entry_of now res ok) s.cache.unfurl_mem)
      young

-- A request of anyone for the same link, within six hours of a fetch that gave a page, or within
-- fifteen minutes of one that failed, with no other lookup or store in the cache in between, is
-- answered from memory: the limiter is not charged, nothing is fetched, and no state changes. The
-- answer is the page, and 422 for a site that was not reached, of which the first request was told
-- 502, as for one that has no preview.
pub unfurl_handler-unfurl_fetched :
    (up up' : Bool) (now later : ℕ) (username key raw site : String) (fetched : Fetched)
    (s : UnfurlState)
    → later < now + remembered_for fetched
    → let result = unfurl_fetched up now key raw site fetched s in
      (result.0 ≡ reply_of fetched)
      × (unfurl_handler up' later username true key result.1
          ≡ (answered (reply_again fetched), result.1))
unfolding unfurl_fetched unfurl_serve fresh
unfurl_handler-unfurl_fetched up up' now later username key raw site unreachable s h = (
  refl,
  stored-hit up up' false now later username key raw site unreachable _ s refl (ground (arith, h)),
)
unfurl_handler-unfurl_fetched up up' now later username key raw site not_previewable s h = (
  refl,
  stored-hit up up' false now later username key raw site not_previewable _ s refl
      (ground (arith, h)),
)
unfurl_handler-unfurl_fetched up up' now later username key raw site (page res) s h = (
  refl,
  stored-hit up up' true now later username key raw site (page res) res s refl (ground (arith, h)),
)

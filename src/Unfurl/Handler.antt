-- ===== src/Unfurl/Handler.antt =====
-- `unfurlHandler` of server/unfurl.go, cut where it waits: for the fetch of another request, or for
-- its own.
use hexeris_beta.Base.{ℕ, String, Option, none, some, Bool, true, false, not, List, if◌then◌else◌}
use hexeris_beta.Limiter.{RateLimiter, is_blocked, record_failure}
use hexeris_beta.Unfurl.Cache.{
  UnfurlResult, UnfurlEntry, UnfurlCache, unfurl_lookup, unfurl_store, begin_fetch, end_fetch,
}

pub record UnfurlState : Type 0 where
  pub cache : UnfurlCache
  pub unfurl_limiter : RateLimiter
  pub unfurl_flight : List String

pub data Reply : Type 0 where
  refused : ℕ → Reply
  preview : UnfurlResult → Reply

-- What becomes of a request at first.
pub data Turn : Type 0 where
  answered : Reply → Turn
  waits fetches : Turn

unfoldable pub unfurl_serve : UnfurlEntry → Reply
unfurl_serve e = if not e.ok then refused 422 else preview e.res

-- Behind a miss.
unfoldable pub unfurl_miss : ℕ → String → String → UnfurlState → Turn × UnfurlState
unfolding is_blocked record_failure begin_fetch
unfurl_miss now_unix username key s =
    let (blocked, checked) = is_blocked s.unfurl_limiter now_unix username in
    let (mine, flight) = begin_fetch key s.unfurl_flight in
    if blocked then (answered (refused 429), record s { unfurl_limiter = checked }) else (
      if mine then fetches else waits,
      record s {
        unfurl_limiter = record_failure checked now_unix username;
        unfurl_flight = flight;
      },
    )

unfoldable pub found_or_miss :
    ℕ → String → String → UnfurlState → Option UnfurlEntry × UnfurlCache → Turn × UnfurlState
unfolding unfurl_serve unfurl_miss
found_or_miss now_unix username key s (none, c) =
    unfurl_miss now_unix username key (record s { cache = c })
found_or_miss now_unix username key s (some e, c) =
    (answered (unfurl_serve e), record s { cache = c })

-- `valid` is the check of the address, `key` its `unfurlKey`; `up` is for the query of the cache.
unfoldable pub unfurl_handler : Bool → ℕ → String → Bool → String → UnfurlState → Turn × UnfurlState
unfolding unfurl_lookup found_or_miss
unfurl_handler up now username valid key s =
    if not valid
    then (answered (refused 400), s)
    else found_or_miss now username key s (unfurl_lookup up now key s.cache)

-- A request that has waited for the fetch of another one.
unfoldable pub unfurl_waited : Bool → ℕ → String → UnfurlState → Reply × UnfurlState
unfolding unfurl_lookup unfurl_serve
unfurl_waited up now key s =
    let (o, c) = unfurl_lookup up now key s.cache in
    (elim o [ none ↦ refused 502 | some e ↦ unfurl_serve e ], record s { cache = c })

-- What comes of a trip outside.
pub data Fetched : Type 0 where
  unreachable not_previewable : Fetched
  page : UnfurlResult → Fetched

abbrev without_page : String → String → UnfurlResult
without_page raw site = record { url = raw; title = ""; description = ""; image = ""; site = site }

abbrev pub kept : String → String → Fetched → UnfurlResult × Bool
kept raw site unreachable = (without_page raw site, false)
kept raw site not_previewable = (without_page raw site, false)
kept raw site (page res) = (res, true)

unfoldable pub reply_of : Fetched → Reply
reply_of unreachable = refused 502
reply_of not_previewable = refused 422
reply_of (page res) = preview res

-- The end of a fetch; `up` is for the write of the cache.
unfoldable pub unfurl_fetched :
    Bool → ℕ → String → String → String → Fetched → UnfurlState → Reply × UnfurlState
unfolding unfurl_store end_fetch reply_of
unfurl_fetched up now key raw site fetched s =
    let (res, ok) = kept raw site fetched in
    (
      reply_of fetched,
      record s {
        cache = unfurl_store up now key res ok s.cache;
        unfurl_flight = end_fetch key s.unfurl_flight;
      },
    )

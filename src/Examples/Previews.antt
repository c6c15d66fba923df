-- ===== src/Examples/Previews.antt =====
-- server/unfurl.go and server/unfurlcache.go with one link.
use hexeris_beta.Base.{◌≡◌, ◌≤◌, refl, some, true, false, List, [], ◌∷◌, length, arith}
use hexeris_beta.Limiter.{new_limiter}
use hexeris_beta.Unfurl.Address.{Ip, address_of, one_disallowed, dial, is_disallowed}
use hexeris_beta.Unfurl.Ranges.{in_ranges, inner_ranges, number, dial-in_ranges}
use hexeris_beta.Unfurl.Cache.{UnfurlResult, UnfurlCache, unfurl_cache_cap}
use hexeris_beta.Unfurl.Bound.{Call, look, store, after_calls, after_calls-Small}
use hexeris_beta.Unfurl.Handler.{
  UnfurlState, unreachable, answered, reply_of, unfurl_handler, unfurl_fetched,
}
use hexeris_beta.Unfurl.Remembered.{reply_again, unfurl_handler-unfurl_fetched}

-- 93.184.216.34, mapped into sixteen bytes.
abbrev ip : Ip
ip = 0 ∷ 0 ∷ 0 ∷ 0 ∷ 0 ∷ 0 ∷ 0 ∷ 0 ∷ 0 ∷ 0 ∷ 255 ∷ 255 ∷ 93 ∷ 184 ∷ 216 ∷ 34 ∷ []

dial-in_ranges_example : in_ranges inner_ranges (number 93 184 216 34) ≡ false
unfolding dial address_of one_disallowed is_disallowed
dial-in_ranges_example =
    dial-in_ranges true (some (ip ∷ [])) ip 93 184 216 34
      (omega arith, omega arith, omega arith, omega arith) refl refl

abbrev result : UnfurlResult
result = record { url = "u"; title = "t"; description = ""; image = ""; site = "s" }

abbrev empty : UnfurlCache
empty = record { unfurl_mem = []; unfurl_cache = [] }

abbrev calls : List Call
calls = store true 5 "k" result true ∷ look true 9 "k" ∷ []

after_calls-Small_example : length (after_calls calls empty).unfurl_mem ≤ unfurl_cache_cap
after_calls-Small_example = after_calls-Small calls empty (omega arith)

abbrev state : UnfurlState
state = record { cache = empty; unfurl_limiter = new_limiter 40 600; unfurl_flight = "k" ∷ [] }

unfurl_handler-unfurl_fetched_example :
    let fetched = unfurl_fetched true 5 "k" "u" "s" unreachable state in
    (fetched.0 ≡ reply_of unreachable)
    × (unfurl_handler true 9 "bob" true "k" fetched.1
        ≡ (answered (reply_again unreachable), fetched.1))
unfurl_handler-unfurl_fetched_example =
    unfurl_handler-unfurl_fetched true true 5 9 "bob" "k" "u" "s" unreachable state (omega arith)

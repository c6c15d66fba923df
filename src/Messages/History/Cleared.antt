-- ===== src/Messages/History/Cleared.antt =====
-- A page of `historyHandler` (server/history.go) whose rows the user has cleared.
use hexeris_beta.Base.{ℕ, ◌≡◌, refl, subst, sym, String, some, true, false, List, [], ◌∷◌}
use hexeris_beta.Groups.Store.{is_group}
use hexeris_beta.Limiter.{RateLimiter, is_blocked}
use hexeris_beta.Messages.Table.{Table, Ascending, first, Every}
use hexeris_beta.Messages.History.{
  Request, Source, page_limit, is_cleared, cleared_seqs, show, all_page, page_rows, answer_page,
  history_handler, all_conversations,
}
use hexeris_beta.Messages.History.Answer.{page}
use hexeris_beta.Messages.History.Union.{concerns, all_conversations_lem}

abbrev pub AllCleared : Source → String → Table → Type 0
AllCleared s me rows = Every (λ r. is_cleared me (cleared_seqs (s.cleared_rows me)) r ≡ true) rows

show-AllCleared :
    (s : Source) (me : String) (rows : Table) → AllCleared s me rows → show s me rows ≡ []
unfolding show
show-AllCleared s me [] h = refl
show-AllCleared s me (r ∷ rs) h = rw h.0 (show-AllCleared s me rs h.1)

-- A request for all conversations that is let through, whose queries work, and whose first rows
-- above the cursor, as many as the page has, are all of conversations that the caller has cleared
-- since, is answered with an empty page, whatever follows them in the table. The rows stand in
-- the strict order of their positive seqs.
pub history_handler-AllCleared :
    (s : Source) (me : String) (q : Request) (t : Table) (limiter : RateLimiter)
    (groups : List String)
    → Ascending 0 t
    → (is_blocked limiter s.now_unix me).0 ≡ false
    → s.query_ok ≡ true
    → q.peer ≡ ""
    → s.user_group_ids me ≡ some groups
    → AllCleared s me (first (page_limit q.limit) (concerns me q.since groups) t)
    → (history_handler s me q t limiter).0 ≡ page []
unfolding history_handler answer_page page_rows all_page is_group
history_handler-AllCleared s me q t limiter groups a allowed works everything e cleared =
    let n : ℕ = page_limit q.limit in
    let rows : Table = all_conversations me q.since n groups t in
    let empty : show s me rows ≡ [] =
      show-AllCleared s me rows
        (subst (AllCleared s me) (sym (all_conversations_lem me q.since n groups t a)) cleared) in
    rw (allowed, works, everything, e, empty) refl

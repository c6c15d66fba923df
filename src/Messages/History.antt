-- ===== src/Messages/History.antt =====
-- `historyHandler` of server/history.go: a page of one conversation or of all.
pub mod Union
pub mod Shown
pub mod Cleared
use hexeris_beta.Base.{
  ℕ, suc, ◌+◌, String, Option, none, some, Bool, true, false, not, List, [], ◌∷◌, ◌++◌, map, take,
  ltb, leb, ◌==◌, ◌=s=◌, ◌&&◌, ◌||◌, if◌then◌else◌,
}
use hexeris_beta.Base.Dict.{Dict, lookup}
use hexeris_beta.Groups.Store.{is_group}
use hexeris_beta.Chatprefs.{chat_key_for}
use hexeris_beta.Limiter.{RateLimiter, is_blocked, record_failure}
use hexeris_beta.Messages.Table.{Row, Table, first, last, one_of, has_seq, between}

-- The numbers of the request; 0 stands for one that is absent, unreadable or negative, which the
-- code treats alike.
pub record Request : Type 0 where
  pub peer : String
  pub since : ℕ
  pub before : ℕ
  pub limit : ℕ

-- A row of reactions that is not removed, in the order of created_at.
pub record Reaction : Type 0 where
  pub msg_id : String
  pub username : String
  pub emoji : String

-- What the handler reads elsewhere: groups.go, `decryptBody`, the rows that clearedSeqs
-- (server/chatprefs.go) reads, the user's groups and the reactions (`none` for a failed query), and
-- whether the query of the page works.
pub record Source : Type 0 where
  pub is_group_member : String → String → Bool
  pub decrypt_body : String → String
  pub cleared_rows : String → Option (Dict ℕ)
  pub user_group_ids : String → Option (List String)
  pub reactions : Option (List Reaction)
  pub query_ok : Bool
  pub now_unix : ℕ

unfoldable pub page_limit : ℕ → ℕ
page_limit n = if ltb 0 n && leb n 1000 then n else 200

-- A branch of the UNION: its limit and its condition.
abbrev pub Branch : Type 0
Branch = ℕ × (Row → Bool)

-- `seq IN (… UNION ALL …)`
unfoldable pub in_union : List Branch → Table → ℕ → Bool
unfolding first has_seq
in_union [] t n = false
in_union (b ∷ bs) t n = has_seq n (first b.0 b.1 t) || in_union bs t n

abbrev pub since_and : ℕ → (Row → Bool) → Row → Bool
since_and since p r = p r && ltb since r.seq

-- The branch of the groups is there if there is a group.
unfoldable pub branches : String → ℕ → ℕ → List String → List Branch
unfolding one_of
branches me since n [] =
    (n, since_and since (λ r. r.sender =s= me))
    ∷ (n, since_and since (λ r. r.recipient =s= me))
    ∷ []
branches me since n (g ∷ gs) =
    (n, since_and since (λ r. r.sender =s= me))
    ∷ (n, since_and since (λ r. r.recipient =s= me))
    ∷ (n, since_and since (λ r. one_of r.recipient (g ∷ gs)))
    ∷ []

unfoldable pub all_conversations : String → ℕ → ℕ → List String → Table → Table
unfolding in_union branches first
all_conversations me since n groups t =
    first n (λ r. in_union (branches me since n groups) t r.seq) t

-- A missing key reads as 0; no boundary at all clears nothing.
abbrev pub boundary : Option ℕ → ℕ
boundary none = 0
boundary (some seq) = seq

unfoldable pub is_cleared : String → Dict ℕ → Row → Bool
unfolding chat_key_for
is_cleared me [] r = false
is_cleared me (c ∷ cs) r =
    leb r.seq (boundary (lookup (chat_key_for me r.sender r.recipient) (c ∷ cs)))

pub record HistMsg : Type 0 where
  pub row : Row
  pub body : String
  pub reactions : List (String × String)

pub data Answer : Type 0 where
  refused : ℕ → Answer
  page : List HistMsg → Answer

-- `clearedSeqs`: a query that fails reads as no boundary.
unfoldable pub cleared_seqs : Option (Dict ℕ) → Dict ℕ
cleared_seqs none = []
cleared_seqs (some rows) = rows

module _ (s : Source) where
  unfoldable pub shown_body : Row → String
  shown_body r =
      if r.deleted
      then "[deleted]"
      else if r.media_type =s= ""
      then s.decrypt_body r.body
      else r.body

  unfoldable pub reactions_of : String → List Reaction → List (String × String)
  reactions_of id [] = []
  reactions_of id (x ∷ xs) =
      let rest = reactions_of id xs in
      if x.msg_id =s= id then (x.username, x.emoji) ∷ rest else rest

  abbrev with_reactions : String → Option (List Reaction) → List (String × String)
  with_reactions id none = []
  with_reactions id (some xs) = reactions_of id xs

  unfoldable pub hist_msg : Row → HistMsg
  unfolding shown_body reactions_of
  hist_msg r = record { row = r; body = shown_body r; reactions = with_reactions r.id s.reactions }

  unfoldable pub show : String → Table → List HistMsg
  unfolding is_cleared cleared_seqs hist_msg
  show me [] = []
  show me (r ∷ rs) =
      let rest = show me rs in
      if is_cleared me (cleared_seqs (s.cleared_rows me)) r then rest else hist_msg r ∷ rest

  abbrev pub of_chat : String → String → Row → Bool
  of_chat me peer r = if is_group peer then r.recipient =s= peer else between me peer r

  -- One conversation: below the cursor `before`, or above `since`.
  unfoldable pub peer_page : String → Request → Table → Table
  unfolding first last between page_limit is_group
  peer_page me q t =
      if ltb 0 q.before
      then last (page_limit q.limit) (λ r. of_chat me q.peer r && ltb r.seq q.before) t
      else first (page_limit q.limit) (λ r. of_chat me q.peer r && ltb q.since r.seq) t

  unfoldable pub all_page : String → Request → Table → Option (List String) → Option Table
  unfolding all_conversations page_limit
  all_page me q t none = none
  all_page me q t (some groups) = some (all_conversations me q.since (page_limit q.limit) groups t)

  -- The rows of the page; `none` is a failed query.
  unfoldable pub page_rows : String → Request → Table → Option Table
  unfolding peer_page all_page
  page_rows me q t =
      if not (q.peer =s= "") then some (peer_page me q t) else all_page me q t (s.user_group_ids me)

  unfoldable pub answer_page : String → Option Table → Answer
  unfolding show
  answer_page me none = refused 500
  answer_page me (some rows) = if s.query_ok then page (show me rows) else refused 500

  -- The limiter of the history is charged by every request that it lets through.
  unfoldable pub history_handler : String → Request → Table → RateLimiter → Answer × RateLimiter
  unfolding answer_page page_rows is_blocked record_failure is_group
  history_handler me q t limiter =
      let (blocked, checked) = is_blocked limiter s.now_unix me in
      if blocked then (refused 429, checked) else (
        if is_group q.peer && not (s.is_group_member q.peer me)
            then refused 403
            else answer_page me (page_rows me q t),
        record_failure checked s.now_unix me,
      )

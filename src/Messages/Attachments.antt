-- ===== src/Messages/Attachments.antt =====
-- `attachmentsHandler` of server/attachments.go.
pub mod Pages
use hexeris_beta.Base.{
  ℕ, zero, suc, String, Option, none, some, Bool, true, false, not, List, [], ◌∷◌, ◌++◌, map,
  length, ltb, leb, ◌==◌, ◌=s=◌, ◌&&◌, if◌then◌else◌,
}
use hexeris_beta.Groups.Store.{is_group}
use hexeris_beta.Limiter.{RateLimiter, is_blocked, record_failure}
use hexeris_beta.Messages.Table.{Row, Table, last, one_of, between}

-- `decryptBody`, groups.go, whether the query works, and the clock.
pub record Source : Type 0 where
  pub decrypt_body : String → String
  pub is_group_member : String → String → Bool
  pub up : Bool
  pub now_unix : ℕ

-- 0 stands for a number that is absent, unreadable or negative.
pub record Request : Type 0 where
  pub peer : String
  pub kind : String
  pub limit : ℕ
  pub before : ℕ

unfoldable pub attachment_kinds : String → Option (List String)
attachment_kinds kind =
    if kind =s= "media"
    then some ("image" ∷ "video" ∷ [])
    else if kind =s= "files"
    then some ("document" ∷ [])
    else if kind =s= "voice"
    then some ("voice" ∷ [])
    else none

unfoldable pub attachment_limit : ℕ → ℕ
attachment_limit n = if ltb 0 n && leb n 200 then n else 60

-- 2^62 - 1
abbrev newest : ℕ
newest = 4_611_686_018_427_387_903

unfoldable pub attachment_cursor : ℕ → ℕ
attachment_cursor n = if ltb 0 n then n else newest

unfoldable pub is_attachment : String → String → List String → Row → Bool
unfolding one_of between is_group
is_attachment me peer kinds r =
    (if is_group peer then r.recipient =s= peer else between me peer r)
    && not r.deleted
    && one_of r.media_type kinds

unfoldable pub attachment_page : ℕ → ℕ → (Row → Bool) → Table → Table
unfolding last
attachment_page limit before p t = last limit (λ r. p r && ltb r.seq before) t

unfoldable pub last_seq : Table → ℕ
last_seq [] = 0
last_seq (r ∷ []) = r.seq
last_seq (r ∷ x ∷ xs) = last_seq (x ∷ xs)

unfoldable pub next_cursor : ℕ → Table → ℕ
unfolding last_seq
next_cursor limit rows = if length rows == limit then last_seq rows else 0

pub record AttachmentItem : Type 0 where
  pub row : Row
  pub url : String

pub data Answer : Type 0 where
  refused : ℕ → Answer
  items : List AttachmentItem → ℕ → Answer

module _ (s : Source) where
  abbrev item : Row → AttachmentItem
  item r = record { row = r; url = s.decrypt_body r.body }

  unfoldable pub answer_attachments : String → Request → Table → Option (List String) → Answer
  unfolding is_attachment attachment_page next_cursor attachment_limit attachment_cursor
  answer_attachments me q t none = refused 400
  answer_attachments me q t (some kinds) =
      let limit = attachment_limit q.limit in
      let rows =
        attachment_page limit (attachment_cursor q.before) (is_attachment me q.peer kinds) t in
      if is_group q.peer && not (s.is_group_member q.peer me)
      then refused 403
      else if not s.up
      then refused 500
      else items (map item rows) (next_cursor limit rows)

  -- The limiter is the history's.
  unfoldable pub attachments_handler : String → Request → Table → RateLimiter → Answer × RateLimiter
  unfolding answer_attachments attachment_kinds is_blocked record_failure
  attachments_handler me q t limiter =
      let (blocked, checked) = is_blocked limiter s.now_unix me in
      if blocked then (refused 429, checked) else (
        if q.peer =s= "" then refused 400 else answer_attachments me q t (attachment_kinds q.kind),
        record_failure checked s.now_unix me,
      )

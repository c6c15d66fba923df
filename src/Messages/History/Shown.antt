-- ===== src/Messages/History/Shown.antt =====
-- Which messages `historyHandler` (server/history.go) shows.
use hexeris_beta.Base.{
  ℕ, ◌<◌, ◌≡◌, refl, sym, ap, ◌∙◌, subst, String, Option, none, some, Bool, true, false, not, List,
  [], ◌∷◌, ltb, leb, ◌=s=◌, ◌&&◌, ◌||◌, if◌then◌else◌, arith, eq_iff, ◌⊎◌, inl, inr,
}
use mathlib.Core.Option.{some-injective}
use hexeris_beta.Base.Dict.{Dict, lookup}
use hexeris_beta.Chatprefs.{chat_key_for}
use hexeris_beta.Groups.Store.{is_group}
use hexeris_beta.Limiter.{RateLimiter}
use hexeris_beta.Messages.Table.{
  Row, Table, Ascending, first, last, one_of, between, Every, Every-map, Every-first, Every-last,
  Every-take, Every-descending, select,
}
use hexeris_beta.Messages.History.{
  Request, Source, boundary, HistMsg, page_limit, is_cleared, cleared_seqs, all_conversations,
  shown_body, hist_msg, show, of_chat, peer_page, all_page, page_rows, Answer, answer_page,
  history_handler,
}
use hexeris_beta.Messages.History.Answer.{refused, page}
use hexeris_beta.Messages.History.Union.{concerns, all_conversations_lem}

groups_of : Option (List String) → List String
groups_of none = []
groups_of (some gs) = gs

-- The user has sent or received the message, or is a member of its group.
unfoldable pub may_read : Source → String → Row → Bool
unfolding one_of is_group
may_read s me r =
    r.sender =s= me
    || r.recipient =s= me
    || (is_group r.recipient && s.is_group_member r.recipient me)
    || elim (s.user_group_ids me) [ none ↦ false | some groups ↦ one_of r.recipient groups ]

-- The row is one of the table.
abbrev pub Stored : Table → Row → Type 0
Stored [] r = ⊥
Stored (x ∷ xs) r = (x ≡ r) ⊎ Stored xs r

-- A message of the page is a row of the table that the user may read and has not cleared, with the
-- body that it has now: nothing of a deleted one, a medium as stored, a text decrypted.
pub record Visible (s : Source) (me : String) (t : Table) (m : HistMsg) : Type 0 where
  pub stored : Stored t m.row
  pub readable : may_read s me m.row ≡ true
  pub kept :
      (rows : Dict ℕ) (seq : ℕ)
      → s.cleared_rows me ≡ some rows
      → lookup (chat_key_for me m.row.sender m.row.recipient) rows ≡ some seq
      → seq < m.row.seq
  pub blanked : m.row.deleted ≡ true → m.body ≡ "[deleted]"
  pub medium : m.row.deleted ≡ false → (m.row.media_type =s= "") ≡ false → m.body ≡ m.row.body
  pub text : m.row.deleted ≡ false → m.row.media_type ≡ "" → m.body ≡ s.decrypt_body m.row.body

abbrev pub AllVisible : Source → String → Table → List HistMsg → Type 0
AllVisible s me t [] = Unit {0}
AllVisible s me t (m ∷ ms) = Visible s me t m × AllVisible s me t ms

above_boundary :
    (me : String) (cleared : Dict ℕ) (r : Row)
    → is_cleared me cleared r ≡ false
    → (seq : ℕ) → lookup (chat_key_for me r.sender r.recipient) cleared ≡ some seq
    → seq < r.seq
unfolding is_cleared lookup
above_boundary me [] r h seq e = absurd (cc e)
above_boundary me (c ∷ cs) r h seq e =
    let hidden = ap (λ (o : Option ℕ). leb r.seq (boundary o)) e in ground (arith, sym hidden ∙ h)

hist_msg-Visible :
    (s : Source) (me : String) (t : Table) (r : Row)
    → may_read s me r ≡ true
    → Stored t r
    → is_cleared me (cleared_seqs (s.cleared_rows me)) r ≡ false
    → Visible s me t (hist_msg s r)
unfolding hist_msg shown_body cleared_seqs
hist_msg-Visible s me t r readable stored e = record {
  stored = stored;
  readable = readable;
  kept = λ rows seq found.
      above_boundary me rows r
        (ap (λ (o : Option (Dict ℕ)). is_cleared me (cleared_seqs o) r) (sym found) ∙ e) seq;
  blanked = λ gone. rw gone refl;
  medium = λ there kind. rw (there, kind) refl;
  text = λ there kind. rw (there, (eq_iff r.media_type "").1 kind) refl;
}

show-AllVisible :
    (s : Source) (me : String) (t rows : Table)
    → Every (λ r. may_read s me r ≡ true) rows
    → Every (Stored t) rows
    → AllVisible s me t (show s me rows)
unfolding show
show-AllVisible s me t [] h k = tt
show-AllVisible s me t (r ∷ rs) h k =
    by_test (is_cleared me (cleared_seqs (s.cleared_rows me)) r) refl
      (show-AllVisible s me t rs h.1 k.1)
  where
    by_test :
        (b : Bool)
        → is_cleared me (cleared_seqs (s.cleared_rows me)) r ≡ b
        → AllVisible s me t (show s me rs)
        → AllVisible s me t (if b then show s me rs else hist_msg s r ∷ show s me rs)
    by_test true e later = later
    by_test false e later = (hist_msg-Visible s me t r h.0 k.0 e, later)

-- Every row of a page is a row of the table.
Every-Stored : (t : Table) → Every (Stored t) t
Every-Stored [] = tt
Every-Stored (x ∷ xs) = (inl refl, Every-map _ _ xs (λ r. inr) (Every-Stored xs))

Every-kept : (P : Row → Type 0) (p : Row → Bool) (t : Table) → Every P t → Every P (select p t)
unfolding select
Every-kept P p [] h = tt
Every-kept P p (r ∷ rs) h = by_test (p r) (Every-kept P p rs h.1)
  where
    by_test :
        (b : Bool) → Every P (select p rs) → Every P (if b then r ∷ select p rs else select p rs)
    by_test true later = (h.0, later)
    by_test false later = later

first-Stored : (p : Row → Bool) (n : ℕ) (t : Table) → Every (Stored t) (first n p t)
unfolding first
first-Stored p n t = Every-take (Stored t) n _ (Every-kept (Stored t) p t (Every-Stored t))

last-Stored : (p : Row → Bool) (n : ℕ) (t : Table) → Every (Stored t) (last n p t)
unfolding last
last-Stored p n t =
    Every-take (Stored t) n _
      (Every-descending (Stored t) _ (Every-kept (Stored t) p t (Every-Stored t)))

page_rows-Stored :
    (s : Source) (me : String) (q : Request) (t rows : Table)
    → page_rows s me q t ≡ some rows
    → Every (Stored t) rows
unfolding page_rows peer_page all_page all_conversations
page_rows-Stored s me q t rows found = by_test (not (q.peer =s= "")) found
  where
    by_cursor :
        (b : Bool) (f g : Row → Bool) (n : ℕ)
        → Every (Stored t) (if b then last n f t else first n g t)
    by_cursor true f g n = last-Stored f n t
    by_cursor false f g n = first-Stored g n t

    by_groups :
        (groups : Option (List String))
        → all_page s me q t groups ≡ some rows
        → Every (Stored t) rows
    by_groups none h = absurd (cc h)
    by_groups (some groups) h =
        subst (Every (Stored t)) (some-injective _ _ h) (first-Stored _ (page_limit q.limit) t)

    by_test :
        (b : Bool)
        → (if b then some (peer_page s me q t) else all_page s me q t (s.user_group_ids me))
          ≡ some rows
        → Every (Stored t) rows
    by_test true h =
        subst (Every (Stored t)) (some-injective _ _ h)
          (by_cursor (ltb 0 q.before) _ _ (page_limit q.limit))
    by_test false h = by_groups (s.user_group_ids me) h

may_read-concerns :
    (s : Source) (me : String) (since : ℕ) (groups : List String) (r : Row)
    → s.user_group_ids me ≡ some groups
    → concerns me since groups r ≡ true
    → may_read s me r ≡ true
unfolding may_read concerns
may_read-concerns s me since groups r e h = rw e (ground arith)

may_read-of_chat :
    (s : Source) (me peer : String) (r : Row)
    → (is_group peer && not (s.is_group_member peer me)) ≡ false
    → of_chat s me peer r ≡ true
    → may_read s me r ≡ true
unfolding may_read between
may_read-of_chat s me peer r allowed h = by_kind (is_group peer) refl h
  where
    by_kind :
        (b : Bool)
        → is_group peer ≡ b
        → (if b then r.recipient =s= peer else between me peer r) ≡ true
        → may_read s me r ≡ true
    by_kind true e h' =
        let same : r.recipient ≡ peer = (eq_iff r.recipient peer).0 h' in
        rw (ap is_group same, e, ap (λ (g : String). s.is_group_member g me) same)
          (ground (arith, allowed, e))
    by_kind false e h' = ground arith

abbrev pub page_of : Answer → List HistMsg
page_of (refused code) = []
page_of (page ms) = ms

abbrev Readable : Source → String → Table → Type 0
Readable s me rows = Every (λ r. may_read s me r ≡ true) rows

first_part : (b c : Bool) → (b && c) ≡ true → b ≡ true
first_part b c h = ground arith

peer_page-Readable :
    (s : Source) (me : String) (q : Request) (t : Table)
    → (is_group q.peer && not (s.is_group_member q.peer me)) ≡ false
    → Readable s me (peer_page s me q t)
unfolding peer_page
peer_page-Readable s me q t allowed = by_test (ltb 0 q.before)
  where
    of : (c : Row → Bool) (r : Row) → (of_chat s me q.peer r && c r) ≡ true → may_read s me r ≡ true
    of c r h = may_read-of_chat s me q.peer r allowed (first_part (of_chat s me q.peer r) (c r) h)

    down : Row → Bool
    down r = ltb r.seq q.before

    up : Row → Bool
    up r = ltb q.since r.seq

    n : ℕ
    n = page_limit q.limit

    by_test :
        (b : Bool)
        → Readable s me (
            if b
            then last n (λ r. of_chat s me q.peer r && down r) t
            else first n (λ r. of_chat s me q.peer r && up r) t)
    by_test true = Every-map _ _ _ (of down) (Every-last (λ r. of_chat s me q.peer r && down r) n t)
    by_test false = Every-map _ _ _ (of up) (Every-first (λ r. of_chat s me q.peer r && up r) n t)

all_page-Readable :
    (s : Source) (me : String) (q : Request) (t rows : Table) (groups : Option (List String))
    → Ascending 0 t
    → s.user_group_ids me ≡ groups
    → all_page s me q t groups ≡ some rows
    → Readable s me rows
unfolding all_page
all_page-Readable s me q t rows none a e found = absurd (cc found)
all_page-Readable s me q t rows (some groups) a e found =
    let n : ℕ = page_limit q.limit in
    subst (Readable s me)
      (sym (all_conversations_lem me q.since n groups t a) ∙ some-injective _ _ found)
      (Every-map _ _ _ (λ r h. may_read-concerns s me q.since groups r e h)
        (Every-first (concerns me q.since groups) n t))

page_rows-Readable :
    (s : Source) (me : String) (q : Request) (t rows : Table)
    → (is_group q.peer && not (s.is_group_member q.peer me)) ≡ false
    → Ascending 0 t
    → page_rows s me q t ≡ some rows
    → Readable s me rows
unfolding page_rows
page_rows-Readable s me q t rows allowed a found = by_test (not (q.peer =s= "")) found
  where
    by_test :
        (b : Bool)
        → (if b then some (peer_page s me q t) else all_page s me q t (s.user_group_ids me))
          ≡ some rows
        → Readable s me rows
    by_test true h =
        subst (Readable s me) (some-injective _ _ h) (peer_page-Readable s me q t allowed)
    by_test false h = all_page-Readable s me q t rows (s.user_group_ids me) a refl h

answer_page-AllVisible :
    (s : Source) (me : String) (t : Table) (o : Option Table)
    → ((rows : Table) → o ≡ some rows → Readable s me rows × Every (Stored t) rows)
    → AllVisible s me t (page_of (answer_page s me o))
unfolding answer_page
answer_page-AllVisible s me t none h = tt
answer_page-AllVisible s me t (some rows) h = by_test s.query_ok
  where
    by_test :
        (b : Bool) → AllVisible s me t (page_of (if b then page (show s me rows) else refused 500))
    by_test true = show-AllVisible s me t rows (h rows refl).0 (h rows refl).1
    by_test false = tt

-- Every message that a request for history is answered with is a row of the table that the caller has
-- sent or received, or that is in a group of which the caller is a member. Its body is "[deleted]" if
-- the message is deleted, the stored body for media, and the decrypted one for text. Where the query
-- of the boundaries works, it lies above what the caller has cleared of its conversation. The rows of
-- the table stand in the strict order of their positive seqs.
pub history_handler-AllVisible :
    (s : Source) (me : String) (q : Request) (t : Table) (limiter : RateLimiter)
    → Ascending 0 t
    → AllVisible s me t (page_of (history_handler s me q t limiter).0)
unfolding history_handler
history_handler-AllVisible s me q t limiter a =
    let denied : Bool = is_group q.peer && not (s.is_group_member q.peer me) in
    let served : denied ≡ false
        → AllVisible s me t (page_of (answer_page s me (page_rows s me q t))) =
      λ allowed. answer_page-AllVisible s me t (page_rows s me q t) (λ rows found.
        (page_rows-Readable s me q t rows allowed a found, page_rows-Stored s me q t rows found)) in
    ground (arith, served)

-- ===== src/Messages/Attachments/Pages.antt =====
-- The pages of `attachmentsHandler` (server/attachments.go), one behind the other.
use hexeris_beta.Base.{
  ℕ, zero, suc, ◌≤◌, ◌<◌, ◌≡◌, refl, ap, ◌∙◌, sym, Bool, true, false, [], ◌∷◌, ◌++◌, take, drop,
  length, length-drop, ltb, leb, ◌==◌, ◌&&◌, if◌then◌else◌, arith,
}
use hexeris_beta.Messages.Table.{Row, Table, Ascending, select, descending, Every-map, Every-select}
use hexeris_beta.Messages.Table.Order.{
  Ascending-select, select-ext, select-select, select-descending, Below, Below-descending,
  select-all, take-drop, take_all, length-take_full,
}
use hexeris_beta.Messages.Attachments.{attachment_page, last_seq, next_cursor}

-- A client that asks for page after page, with the cursor of each answer, until it is 0.
unfoldable pub all_pages : ℕ → ℕ → (Row → Bool) → ℕ → Table → Table
unfolding attachment_page next_cursor
all_pages zero limit p before t = []
all_pages (suc n) limit p before t =
    let rows = attachment_page limit before p t in
    let next = next_cursor limit rows in
    let rest = all_pages n limit p next t in if next == 0 then rows else rows ++ rest

abbrev older : (Row → Bool) → ℕ → Row → Bool
older p b r = p r && ltb r.seq b

-- What a client has not seen yet.
unfoldable pub older_rows : (Row → Bool) → ℕ → Table → Table
unfolding select descending
older_rows p b t = descending (select (older p b) t)

older_rows-next :
    (p : Row → Bool) (b next : ℕ) (t : Table)
    → next ≤ b
    → older_rows p next t ≡ select (λ r. ltb r.seq next) (older_rows p b t)
unfolding older_rows
older_rows-next p b next t h = sym (
    select-descending (λ r. ltb r.seq next) (select (older p b) t)
    ∙ ap descending (
        select-select (older p b) (λ r. ltb r.seq next) t
        ∙ select-ext _ _ t (λ r. ground (arith, h))))

second_part : (b c : Bool) → (b && c) ≡ true → c ≡ true
second_part b c h = ground arith

older_rows-Below : (p : Row → Bool) (b : ℕ) (t : Table) → Ascending 0 t → Below b (older_rows p b t)
unfolding older_rows
older_rows-Below p b t a =
    Below-descending b 0 (select (older p b) t) (Ascending-select (older p b) 0 t a) (
      Every-map _ _ _ (λ r h. ground (arith, second_part (p r) (ltb r.seq b) h))
        (Every-select (older p b) t))

last_seq-bounds :
    (b n : ℕ) (t : Table)
    → Below b t
    → suc n ≤ length t
    → (0 < last_seq (take (suc n) t)) × (last_seq (take (suc n) t) < b)
unfolding last_seq
last_seq-bounds b n [] h e = absurd (omega (arith, e))
last_seq-bounds b zero (r ∷ rs) h e = (h.1, h.0)
last_seq-bounds b (suc n) (r ∷ []) h e = absurd (omega (arith, e))
last_seq-bounds b (suc n) (r ∷ x ∷ xs) h e =
    let later = last_seq-bounds r.seq n (x ∷ xs) h.2 (omega (arith, e)) in
    (later.0, omega (arith, later.1, h.0))

select-last_seq :
    (b n : ℕ) (t : Table)
    → Below b t
    → suc n ≤ length t
    → select (λ r. ltb r.seq (last_seq (take (suc n) t))) t ≡ drop (suc n) t
unfolding select last_seq
select-last_seq b n [] h e = absurd (omega (arith, e))
select-last_seq b zero (r ∷ rs) h e =
    let out : ltb r.seq r.seq ≡ false = ground arith in
    rw out (select-all r.seq r.seq rs h.2 (omega arith))
select-last_seq b (suc n) (r ∷ []) h e = absurd (omega (arith, e))
select-last_seq b (suc n) (r ∷ x ∷ xs) h e =
    let low = last_seq-bounds r.seq n (x ∷ xs) h.2 (omega (arith, e)) in
    let out : ltb r.seq (last_seq (take (suc n) (x ∷ xs))) ≡ false = ground (arith, low.1) in
    rw out (select-last_seq r.seq n (x ∷ xs) h.2 (omega (arith, e)))

attachment_page_lem :
    (limit b : ℕ) (p : Row → Bool) (t : Table)
    → attachment_page limit b p t ≡ take limit (older_rows p b t)
unfolding attachment_page older_rows
attachment_page_lem limit b p t = refl

-- A page and what is behind it, where the rows are longer than the page.
after_page :
    (m b : ℕ) (p : Row → Bool) (t : Table)
    → Ascending 0 t
    → suc m ≤ length (older_rows p b t)
    → older_rows p (last_seq (take (suc m) (older_rows p b t))) t ≡ drop (suc m) (older_rows p b t)
after_page m b p t a full =
    let below = older_rows-Below p b t a in
    let low = last_seq-bounds b m (older_rows p b t) below full in
    older_rows-next p b (last_seq (take (suc m) (older_rows p b t))) t (omega (arith, low.1))
    ∙ select-last_seq b m (older_rows p b t) below full

abbrev follow : ℕ → ℕ → (Row → Bool) → Table → Table → ℕ → Table
follow n limit p t rows next = if next == 0 then rows else rows ++ all_pages n limit p next t

follow_lem :
    (n m b : ℕ) (p : Row → Bool) (t : Table)
    → Ascending 0 t
    → length (older_rows p b t) ≤ n
    → ((next : ℕ)
        → length (older_rows p next t) < n
        → all_pages n (suc m) p next t ≡ older_rows p next t)
    → let rows = take (suc m) (older_rows p b t) in
      follow n (suc m) p t rows (next_cursor (suc m) rows) ≡ older_rows p b t
unfolding next_cursor
follow_lem n m b p t a few ih = by_test (leb (suc m) (length whole)) refl
  where
    whole : Table
    whole = older_rows p b t

    rows : Table
    rows = take (suc m) whole

    by_test :
        (c : Bool)
        → leb (suc m) (length whole) ≡ c
        → follow n (suc m) p t rows (if length rows == suc m then last_seq rows else 0) ≡ whole
    by_test true e =
        let full : suc m ≤ length whole = ground (arith, e) in
        let low = last_seq-bounds b m whole (older_rows-Below p b t a) full in
        let same : (length rows == suc m) ≡ true =
          ground (arith, length-take_full (suc m) whole full) in
        let more : (last_seq rows == 0) ≡ false = ground (arith, low.0) in
        let behind = after_page m b p t a full in
        ap (λ (c : Bool). follow n (suc m) p t rows (if c then last_seq rows else 0)) same
        ∙ ap (λ (c : Bool). if c then rows else rows ++ all_pages n (suc m) p (last_seq rows) t)
            more
        ∙ ap (λ (l : Table). rows ++ l)
            (ih (last_seq rows)
                (omega (arith, ap length behind, length-drop (suc m) whole, full, few))
              ∙ behind)
        ∙ take-drop (suc m) whole
    by_test false e =
        let short : length whole ≤ suc m = ground (arith, e) in
        let all : rows ≡ whole = take_all (suc m) whole short in
        let apart : (length rows == suc m) ≡ false = ground (arith, ap length all, e) in
        ap (λ (c : Bool). follow n (suc m) p t rows (if c then last_seq rows else 0)) apart ∙ all

-- The pages that follow one another by the cursor of each answer, from the cursor `before` on, are
-- together the attachments older than it: each once, the newest first, whatever the size of a page.
-- The rows of the table stand in the strict order of their positive seqs, and the number of requests
-- is greater than that of the attachments.
pub all_pages_lem :
    (n m : ℕ) (p : Row → Bool) (before : ℕ) (t : Table)
    → Ascending 0 t
    → length (older_rows p before t) < n
    → all_pages n (suc m) p before t ≡ older_rows p before t
unfolding all_pages
all_pages_lem zero m p before t a few = absurd (omega (arith, few))
all_pages_lem (suc n) m p before t a few =
    ap (λ (rows : Table). follow n (suc m) p t rows (next_cursor (suc m) rows))
      (attachment_page_lem (suc m) before p t)
    ∙ follow_lem n m before p t a (omega (arith, few))
        (λ next less. all_pages_lem n m p next t a less)

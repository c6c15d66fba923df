-- ===== src/Msgwriter/Replies.antt =====
-- `flushMessageBatch` of server/msgwriter.go answers every waiter once, whatever the database does.
use mathlib.Core.List.{append-nil, Perm}
use hexeris_beta.Base.{
  ℕ, ◌+◌, String, ◌≡◌, refl, sym, ap, subst, ◌∙◌, none, true, false, List, [], ◌∷◌, ◌++◌,
  if◌then◌else◌, ◌=s=◌, eq_iff, arith, Bool-cases, inl, inr,
}
use text.Mathlib.TextPositions.{eq_refl}
use hexeris_beta.Base.Dict.{Dict, lookup, insert, delete}
use hexeris_beta.Msgwriter.{
  SaveError, SaveResult, SaveRequest, Inserted, rows, insert_error, failed, waiting, send_all,
  Stats, deliver_each, retry_each, retry_result, row_result, row_level_failure, collect,
  finish_batch, flush_message_batch,
}
use hexeris_beta.Msgwriter.Waiters.{
  has, Distinct, Known, expected, answers, answers-delete, deliver_each-eq-answers, collect-answers,
}

-- A result that the requests of `us` do not ask for does not matter.
answers_skip :
    (f : String → SaveResult) (k : String) (res : SaveResult) (w : Dict (List ℕ))
    (us : List SaveRequest)
    → has k us ≡ false
    → answers (λ id. if k =s= id then res else f id) w us ≡ answers f w us
answers_skip f k res w [] h = refl
answers_skip f k res w (u ∷ us) h =
    ground (arith, eq_iff k u.msg.id, eq_iff u.msg.id k, answers_skip f k res w us)

Known-nil : Known ([], [])
unfolding lookup
Known-nil id = (λ h. refl, λ h. refl)

module _ {S : Type 0} (insert_rows : S → List SaveRequest → Inserted × S) where
  -- The result of each id when the rows are tried one by one.
  retried : S → List SaveRequest → String → SaveResult
  retried db [] id = failed SaveError.no_returning_row
  retried db (u ∷ us) id =
      let (one, db') = insert_rows db (u ∷ []) in
      let later = retried db' us id in if u.msg.id =s= id then retry_result u.msg.id one else later

  retry_each-eq-answers :
      (db : S) (w : Dict (List ℕ)) (us : List SaveRequest)
      → Distinct us
      → (retry_each insert_rows db w us).0 ≡ answers (retried db us) w us
  unfolding retry_each retried
  retry_each-eq-answers db w [] d = refl
  retry_each-eq-answers db w (u ∷ us) d =
      let db' = (insert_rows db (u ∷ [])).1 in
      let res = retry_result u.msg.id (insert_rows db (u ∷ [])).0 in
      rw (eq_refl u.msg.id, answers_skip (retried db' us) u.msg.id res w us d.0)
        (ap (◌++◌ (send_all res (waiting w u.msg.id))) (
          retry_each-eq-answers db' (delete u.msg.id w) us d.1
          ∙ answers-delete (retried db' us) w u.msg.id us d.0))

  finish_batch-answers :
      (st : Stats) (ins : Inserted) (db : S) (uniq : List SaveRequest) (w : Dict (List ℕ))
      → Distinct uniq
      → (f : String → SaveResult) × ((finish_batch insert_rows st (ins, db) uniq w).0
          ≡ answers f w uniq)
  unfolding finish_batch
  finish_batch-answers st (rows rs) db uniq w d =
      (row_result rs, deliver_each-eq-answers (row_result rs) w uniq d)
  finish_batch-answers st (insert_error e) db uniq w d = elim (Bool-cases (row_level_failure e)) [
    | inl row ↦ (retried db uniq, rw row (retry_each-eq-answers db w uniq d))
    | inr infra ↦ ((λ id. failed e), rw infra (deliver_each-eq-answers (λ id. failed e) w uniq d))
  ]

  -- Whatever the batch and the database, every request's channel is sent exactly one reply, and
  -- requests with one id are sent the same result.
  pub flush_answers_all :
      (st : Stats) (db : S) (batch : List SaveRequest)
      → (result : String → SaveResult) × Perm
          (flush_message_batch insert_rows st db batch).0
          (expected result batch)
  unfolding flush_message_batch
  flush_answers_all st db batch =
      let c = collect ([], []) batch in
      let ins = insert_rows db c.0 in
      let done =
        finish_batch-answers st ins.0 ins.1 c.0 c.1
          (collect-answers (λ id. failed SaveError.no_returning_row) [] [] batch tt Known-nil).0 in
      (
        done.0,
        subst (λ l. Perm l (expected done.0 batch)) (sym done.1)
            (subst (λ l. Perm (answers done.0 c.1 c.0) l) (append-nil (expected done.0 batch))
              (collect-answers done.0 [] [] batch tt Known-nil).1),
      )

  finish_batch-infrastructure :
      (st : Stats) (e : SaveError) (db : S) (uniq : List SaveRequest) (w : Dict (List ℕ))
      → row_level_failure e ≡ false
      → finish_batch insert_rows st (insert_error e, db) uniq w ≡ (
        deliver_each (λ r. failed e) w uniq,
        record st { batch_fast_fail = st.batch_fast_fail + 1 },
        db,
      )
  unfolding finish_batch
  finish_batch-infrastructure st e db uniq w infra = rw infra

  -- An infrastructure error is answered to the whole batch with no further INSERT: the database
  -- is as the failed INSERT left it, and only the fast-fail counter moves.
  pub flush_infrastructure_error :
      (st : Stats) (db : S) (batch : List SaveRequest) (e : SaveError)
      → (insert_rows db (collect ([], []) batch).0).0 ≡ insert_error e
      → row_level_failure e ≡ false
      → let (sent, st', db') = flush_message_batch insert_rows st db batch in
        Perm sent (expected (λ id. failed e) batch)
        × (db' ≡ (insert_rows db (collect ([], []) batch).0).1)
        × (st' ≡ record st { batch_fast_fail = st.batch_fast_fail + 1 })
  unfolding flush_message_batch
  flush_infrastructure_error st db batch e h infra =
      let c = collect ([], []) batch in
      let db' = (insert_rows db c.0).1 in
      let ins : insert_rows db c.0 ≡ (insert_error e, db') = λ i. (h i, db') in
      let got = collect-answers (λ id. failed e) [] [] batch tt Known-nil in
      rw (ins, finish_batch-infrastructure st e db' c.0 c.1 infra)
        (
          subst (λ l. Perm (deliver_each (λ r. failed e) c.1 c.0) l)
              (append-nil (expected (λ id. failed e) batch))
              (rw (deliver_each-eq-answers (λ id. failed e) c.1 c.0 got.0) got.1),
          refl,
          refl,
        )

-- A message whose batch, of it alone, fails for a fault of the row, and for which the retry of the
-- row then returns no row, is answered with no error and seq 0.
pub retry_missing_row :
    {S : Type 0} (insert_rows : S → List SaveRequest → Inserted × S) (st : Stats) (db db1 db2 : S)
    (r : SaveRequest) (e : SaveError) (rs : Dict SaveResult)
    → insert_rows db (r ∷ []) ≡ (insert_error e, db1)
    → row_level_failure e ≡ true
    → insert_rows db1 (r ∷ []) ≡ (rows rs, db2)
    → lookup r.msg.id rs ≡ none
    → (flush_message_batch insert_rows st db (r ∷ [])).0
      ≡ (r.reply, record { seq = 0; created_at = 0; err = none }) ∷ []
unfolding flush_message_batch retry_each retry_result waiting lookup insert delete
retry_missing_row insert_rows st db db1 db2 r e rs fails faulty again missing =
    rw (fails, faulty, again, retry_result, missing, waiting, eq_refl r.msg.id) refl

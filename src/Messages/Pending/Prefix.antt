-- ===== src/Messages/Pending/Prefix.antt =====
-- What `deliverPending` (server/history.go) has delivered when its loop ends.
use hexeris_beta.Base.{
  ℕ, ◌<◌, ◌≡◌, refl, ap, String, Bool, true, false, List, [], ◌∷◌, map, take, length, if◌then◌else◌,
  arith, ◌⊎◌, inl, inr,
}
use hexeris_beta.Base.Dict.{Dict}
use hexeris_beta.Hub.Sockets.{Sockets, send, send_works, snapshot_clients}
use hexeris_beta.Hub.Routing.{Services, Hub, Client, ack_of, send_ack_to_all}
use hexeris_beta.Messages.Table.{Row, Table, first, Every}
use hexeris_beta.Messages.Pending.{
  max_pending_per_connect, is_pending, set_delivered, deliver_pending, message_of, is_hidden,
  written, deliver_one, deliver_rows,
}
use hexeris_beta.Hub.Sockets.Queue.{
  Queued, Queued-send, Queued-send_each, Queued-send_works, send_works-send,
}

module _ (sv : Services) (decrypt_body : String → String) (client : Client) (cleared : Dict ℕ) where
  Queued-deliver_one :
      (id : ℕ) (frame : List ℕ) (r : Row) (h : Hub)
      → Queued id frame h.sockets
      → Queued id frame (deliver_one sv decrypt_body client cleared r h).1.sockets
  unfolding deliver_one written send_ack_to_all
  Queued-deliver_one id frame r h q =
      let f : List ℕ = sv.marshal (message_of sv decrypt_body client cleared r) in
      let ack : List ℕ = sv.marshal (ack_of sv r.id "delivered" r.seq "" 0) in
      let ids : List ℕ = snapshot_clients r.sender h.clients in
      ground (
        arith,
        q,
        Queued-send id frame client.number f h.sockets q,
        Queued-send_each id frame ids ack h.sockets q,
        Queued-send_each id frame ids ack (send client.number f h.sockets)
            (Queued-send id frame client.number f h.sockets q),
      )

  Queued-deliver_rows :
      (id : ℕ) (frame : List ℕ) (rs : Table) (h : Hub)
      → Queued id frame h.sockets
      → Queued id frame (deliver_rows sv decrypt_body client cleared rs h).1.sockets
  unfolding deliver_rows
  Queued-deliver_rows id frame [] h q = q
  Queued-deliver_rows id frame (r ∷ rs) h q =
      let h' : Hub = (deliver_one sv decrypt_body client cleared r h).1 in
      let q' = Queued-deliver_one id frame r h q in
      ground (arith, q', Queued-deliver_rows id frame rs h' q')

  -- The user's own setting hides the row, or its message is with the connection.
  abbrev pub Reached : Sockets → Row → Type 0
  Reached ss r =
      (is_hidden cleared r ≡ true)
      ⊎ Queued client.number (sv.marshal (message_of sv decrypt_body client cleared r)) ss

  Reached-deliver_one :
      (r : Row) (h : Hub)
      → (deliver_one sv decrypt_body client cleared r h).0 ≡ true
      → Reached (deliver_one sv decrypt_body client cleared r h).1.sockets r
  unfolding deliver_one written send_ack_to_all
  Reached-deliver_one r h =
      by_tests (is_hidden cleared r) (send_works client.number h.sockets) refl refl
    where
      f : List ℕ
      f = sv.marshal (message_of sv decrypt_body client cleared r)

      told : Hub → Hub
      told = send_ack_to_all sv r.sender r.id "delivered" r.seq

      result : Bool → Bool → Bool × Hub
      result hidden works =
          if hidden
          then (true, told h)
          else if works
          then (true, told (written sv decrypt_body client cleared r h))
          else (false, written sv decrypt_body client cleared r h)

      by_tests :
          (hidden works : Bool)
          → is_hidden cleared r ≡ hidden
          → send_works client.number h.sockets ≡ works
          → (result hidden works).0 ≡ true
          → Reached (result hidden works).1.sockets r
      by_tests true works e w goes_on = inl e
      by_tests false true e w goes_on = inr (
          Queued-send_each client.number f (snapshot_clients r.sender h.clients)
            (sv.marshal (ack_of sv r.id "delivered" r.seq "" 0)) (send client.number f h.sockets)
            (Queued-send_works client.number f h.sockets w))
      by_tests false false e w goes_on = absurd (cc goes_on)

  stopped-deliver_one :
      (r : Row) (h : Hub)
      → (deliver_one sv decrypt_body client cleared r h).0 ≡ false
      → send_works client.number (deliver_one sv decrypt_body client cleared r h).1.sockets ≡ false
  unfolding deliver_one written
  stopped-deliver_one r h e = ground (
    arith,
    e,
    send_works-send client.number (sv.marshal (message_of sv decrypt_body client cleared r))
        h.sockets,
  )

  abbrev pub Ended : Table → List String × Hub → Type 0
  Ended rows (ids, h) =
      (ids ≡ map Row.id (take (length ids) rows))
      × Every (Reached h.sockets) (take (length ids) rows)
      × (length ids < length rows → send_works client.number h.sockets ≡ false)

  -- The loop over the pending rows, in the order of seq, delivers a first part of them. Each row of
  -- that part is hidden by what the user has cleared, or its message is with the connection when the
  -- loop ends. If rows are left over, the connection takes no more.
  pub deliver_rows_lem :
      (rows : Table) (h : Hub) → Ended rows (deliver_rows sv decrypt_body client cleared rows h)
  unfolding deliver_rows
  deliver_rows_lem [] h = (refl, tt, λ few. absurd (omega (arith, few)))
  deliver_rows_lem (r ∷ rs) h =
      by_test (deliver_one sv decrypt_body client cleared r h).0 refl
        (deliver_rows_lem rs (deliver_one sv decrypt_body client cleared r h).1)
    where
      h' : Hub
      h' = (deliver_one sv decrypt_body client cleared r h).1

      rest : List String × Hub
      rest = deliver_rows sv decrypt_body client cleared rs h'

      still : Reached h'.sockets r → Reached rest.1.sockets r
      still (inl e) = inl e
      still (inr q) = inr (Queued-deliver_rows client.number _ rs h' q)

      by_test :
          (b : Bool)
          → (deliver_one sv decrypt_body client cleared r h).0 ≡ b
          → Ended rs rest
          → Ended (r ∷ rs) (if b then (r.id ∷ rest.0, rest.1) else ([], h'))
      by_test true e later = (
        ap (◌∷◌ r.id) later.0,
        (still (Reached-deliver_one r h e), later.1),
        λ few. later.2 (omega (arith, few)),
      )
      by_test false e later = (refl, tt, λ few. stopped-deliver_one r h e)

  -- The table and the hub after a drain: the marks of a first part of the pending rows are set, each
  -- of which is hidden or with the connection; if pending rows of the batch are left over, the
  -- connection takes no more.
  abbrev pub Drained : Table → Table × Hub → ℕ → Type 0
  Drained t (t', h) n =
      let rows = first max_pending_per_connect (is_pending client.username) t in
      (t' ≡ set_delivered (map Row.id (take n rows)) t)
      × Every (Reached h.sockets) (take n rows)
      × (n < length rows → send_works client.number h.sockets ≡ false)

  -- When its query and its UPDATE work, `deliverPending` sets the marks of exactly a first part of
  -- the user's undelivered rows (at most 1000, in the order of seq): each of these is hidden by what
  -- the user has cleared, or its message is with the connection; and if some of the batch are left
  -- over, the connection takes no more.
  pub deliver_pending_lem :
      (t : Table) (h : Hub)
      → (n : ℕ) × Drained t (deliver_pending sv decrypt_body client cleared true true t h) n
  unfolding deliver_pending
  deliver_pending_lem t h =
      let rows : Table = first max_pending_per_connect (is_pending client.username) t in
      let out : List String × Hub = deliver_rows sv decrypt_body client cleared rows h in
      let ended = deliver_rows_lem rows h in
      (length out.0, (ap (λ (ids : List String). set_delivered ids t) ended.0, ended.1, ended.2))

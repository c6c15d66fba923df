-- ===== src/Hub/Routing/Refusals.antt =====
-- What server/ws.go refuses, and what that leaves.
use hexeris_beta.Base.{
  ℕ, ◌+◌, ◌≡◌, refl, String, Option, none, some, Bool, true, false, [], ◌∷◌, ltb, if◌then◌else◌,
  arith,
}
use hexeris_beta.Base.Dict.{Dict, lookup, delete}
use hexeris_beta.Groups.Store.{is_group}
use hexeris_beta.Hub.Sockets.{send_each}
use hexeris_beta.Hub.Routing.{
  Message, Services, Hub, Client, known_user_ttl, ask_users, user_exists, ack_of, route_direct,
  route_group_message, route_message, send_ack_reason,
}

delete-absent : (key : String) (d : Dict ℕ) → lookup key d ≡ none → delete key d ≡ d
unfolding lookup delete
delete-absent key [] e = refl
delete-absent key (entry ∷ rest) e = ground (arith, delete-absent key rest)

module _ (sv : Services) where
  -- A user without a row, who was not seen within the time the cache keeps, is not found.
  user_exists-absent :
      (user : String) (known : Dict ℕ)
      → sv.user_row user ≡ false
      → ((cached_at : ℕ)
          → lookup user known ≡ some cached_at
          → ltb sv.now (cached_at + known_user_ttl) ≡ false)
      → user_exists sv user known ≡ (false, delete user known)
  unfolding user_exists ask_users
  user_exists-absent user known no_row stale = by_entry (lookup user known) refl
    where
      by_entry :
          (o : Option ℕ)
          → lookup user known ≡ o
          → (elim o [
            | none ↦ ask_users sv user known
            | some cached_at ↦
                if ltb sv.now (cached_at + known_user_ttl)
                then (true, known)
                else ask_users sv user (delete user known)
          ])
            ≡ (false, delete user known)
      by_entry none e = rw (no_row, delete-absent user known e) refl
      by_entry (some cached_at) e = rw (no_row, stale cached_at e) refl

module _ (sv : Services) (title : String → String → String) where
  abbrev pub refused_with : Message → Client → Hub → String → Dict ℕ → Hub
  refused_with msg c h reason known = record h {
    known_users = known;
    sockets =
        send_each (c.number ∷ []) (sv.marshal (ack_of sv msg.id "failed" 0 reason 0)) h.sockets;
  }

  -- A message to a group from one who is no member, or to a user whom the table of users does not
  -- have (a failed query counts as such) and who was not seen within the ten minutes of the cache,
  -- is neither stored nor shown, marked or notified: the one thing that is sent is the failed
  -- acknowledgement, with the reason "not_member" or "no_user", to the connection it came from. The
  -- cache of known users loses at most the entry of that user.
  pub route_message_refuses :
      (msg : Message) (c : Client) (h : Hub)
      → (is_group msg.to ≡ true → sv.is_group_member msg.to c.username ≡ false)
      → (is_group msg.to ≡ false → sv.user_row msg.to ≡ false)
      → ((cached_at : ℕ)
          → lookup msg.to h.known_users ≡ some cached_at
          → ltb sv.now (cached_at + known_user_ttl) ≡ false)
      → route_message sv title msg c h ≡ record h {
        known_users = if is_group msg.to then h.known_users else delete msg.to h.known_users;
        sockets =
            send_each
              (c.number ∷ [])
              (sv.marshal (
                ack_of sv msg.id "failed" 0
                  (if is_group msg.to then "not_member" else "no_user")
                  0))
              h.sockets;
      }
  unfolding route_message route_direct route_group_message send_ack_reason
  route_message_refuses msg c h not_member no_row stale = by_group (is_group msg.to) refl
    where
      by_group :
          (g : Bool)
          → is_group msg.to ≡ g
          → (if g then route_group_message sv title msg c h else route_direct sv title msg c h)
            ≡ refused_with msg c h
                (if g then "not_member" else "no_user")
                (if g then h.known_users else delete msg.to h.known_users)
      by_group true e = rw (not_member e) refl
      by_group false e = rw (user_exists-absent sv msg.to h.known_users (no_row e) stale) refl

-- ===== src/Groups/Served.antt =====
-- What holds of the cache behind any sequence of requests to the endpoints of server/groups.go.
use hexeris_beta.Base.{ℕ, String, Option, none, some, Bool, List, [], ◌∷◌}
use hexeris_beta.Limiter.{RateLimiter, is_blocked}
use hexeris_beta.Groups.Store.{Role, Query, State, remove_row, is_group_member, is_group_admin}
use hexeris_beta.Groups.Handlers.{World, Response, refused, create_handler, members_handler}
use hexeris_beta.Groups.Updates.{
  update_name, then_description, update_handler, delete_handler, role_handler, leave_handler,
}
use hexeris_beta.Groups.Cache.{
  Reads, Coherent, weaken, notify_group-Coherent, roles_of-remove_row, with_members,
}
use hexeris_beta.Groups.Coherence.{
  answered, if-under, if-CoherentBut, delete_rows-Coherent, change_role-Coherent,
  after_leave-Coherent, is_group_admin-Coherent, is_group_member-Coherent, change_members-Coherent,
  describe-Coherent, rename-Coherent, create_group-Coherent,
}
use hexeris_beta.Groups.Requests.{
  Endpoint, create, members, rename, describe, erase, role, leave, serve, serve_all,
}

module _ (w : World) (up : Query → Bool) (reads : Reads up) where
  abbrev created : Response × State × RateLimiter → State
  created r = r.1

  create_handler-Coherent :
      (s : State) (lim : RateLimiter) (now : ℕ) (me : Option String)
      (req : Option (String × List String)) (gid : String)
      → Coherent s
      → Coherent (create_handler w up s lim now me req gid).1
  unfolding create_handler
  create_handler-Coherent s lim now none req gid h = h
  create_handler-Coherent s lim now (some me) none gid h = h
  create_handler-Coherent s lim now (some me) (some (raw, ms)) gid h =
      if-under created _ (refused 400, s, lim) _ h
        (if-under created _ (refused 409, s, lim) _ h
          (if-under created _ (refused 429, s, (is_blocked lim now me).1) _ h
            (if-under created _ (refused 409, s, (is_blocked lim now me).1) _ h
              (create_group-Coherent w up reads s _ now me gid _ ms h))))

  members_handler-Coherent :
      (s : State) (me : Option String) (post : Bool)
      (req : Option (String × List String × List String))
      → Coherent s
      → Coherent (members_handler w up s me post req).1
  unfolding members_handler
  members_handler-Coherent s none post req h = h
  members_handler-Coherent s (some me) post none h = h
  members_handler-Coherent s (some me) post (some (gid, add, remove)) h =
      let h' = is_group_admin-Coherent w up reads s gid me h in
      if-under answered _ (refused 401, s) _ h
        (if-under answered _ (refused 400, s) _ h
          (if-under answered _ (refused 403, (is_group_admin up s gid me).1) _ h'
            (change_members-Coherent w up reads _ me gid add remove h')))

  role_handler-Coherent :
      (s : State) (me : Option String) (post : Bool) (req : Option (String × String × Role))
      → Coherent s
      → Coherent (role_handler w up s me post req).1
  unfolding role_handler
  role_handler-Coherent s none post req h = h
  role_handler-Coherent s (some me) post none h = h
  role_handler-Coherent s (some me) post (some (gid, user, r)) h =
      let h' = is_group_admin-Coherent w up reads s gid me h in
      if-under answered _ (refused 401, s) _ h
        (if-under answered _ (refused 403, (is_group_admin up s gid me).1) _ h'
          (change_role-Coherent w up reads _ me gid user r h'))

  delete_handler-Coherent :
      (s : State) (me : Option String) (post : Bool) (req : Option String)
      → Coherent s
      → Coherent (delete_handler w up s me post req).1
  unfolding delete_handler
  delete_handler-Coherent s none post req h = h
  delete_handler-Coherent s (some me) post none h = h
  delete_handler-Coherent s (some me) post (some gid) h =
      let h' = is_group_admin-Coherent w up reads s gid me h in
      if-under answered _ (refused 401, s) _ h
        (if-under answered _ (refused 400, s) _ h
          (if-under answered _ (refused 403, (is_group_admin up s gid me).1) _ h'
            (delete_rows-Coherent w up reads gid _
              (notify_group-Coherent up reads _ gid (weaken gid _ h')))))

  leave_handler-Coherent :
      (s : State) (me : Option String) (post : Bool) (req : Option String)
      → Coherent s
      → Coherent (leave_handler w up s me post req).1
  unfolding leave_handler
  leave_handler-Coherent s none post req h = h
  leave_handler-Coherent s (some me) post none h = h
  leave_handler-Coherent s (some me) post (some gid) h =
      let s' = (is_group_member up s gid me).1 in
      let h' = is_group_member-Coherent w up reads s gid me h in
      if-under answered _ (refused 401, s) _ h
        (if-under answered _ (refused 403, s') _ h'
          (after_leave-Coherent w up reads _ gid (
            if-CoherentBut gid (up (Query.delete_member me)) _ s'
              (with_members up reads s' gid (remove_row gid me s'.members) (weaken gid s' h')
                (λ k apart. roles_of-remove_row gid k apart me s'.members))
              (weaken gid s' h'))))

  rename_handler-Coherent :
      (s : State) (me : Option String) (post : Bool) (gid name : String)
      → Coherent s
      → Coherent (update_handler w up s me post (some (gid, some name, none))).1
  unfolding update_handler
  rename_handler-Coherent s none post gid name h = h
  rename_handler-Coherent s (some me) post gid name h =
      let h' = is_group_admin-Coherent w up reads s gid me h in
      if-under answered _ (refused 401, s) _ h
        (if-under answered _ (refused 400, s) _ h
          (if-under answered _ (refused 403, (is_group_admin up s gid me).1) _ h'
            (rename-Coherent w up reads _ gid name h')))

  describe_handler-Coherent :
      (s : State) (me : Option String) (post : Bool) (gid text : String)
      → Coherent s
      → Coherent (update_handler w up s me post (some (gid, none, some text))).1
  unfolding update_handler then_description update_name
  describe_handler-Coherent s none post gid text h = h
  describe_handler-Coherent s (some me) post gid text h =
      let h' = is_group_admin-Coherent w up reads s gid me h in
      if-under answered _ (refused 401, s) _ h
        (if-under answered _ (refused 400, s) _ h
          (if-under answered _ (refused 403, (is_group_admin up s gid me).1) _ h'
            (describe-Coherent w up reads _ gid (some text) h')))

  serve-Coherent : (e : Endpoint) (s : State) → Coherent s → Coherent (serve w up e s)
  unfolding serve
  serve-Coherent (create lim now me req gid) s h = create_handler-Coherent s lim now me req gid h
  serve-Coherent (members me post req) s h = members_handler-Coherent s me post req h
  serve-Coherent (rename me post gid name) s h = rename_handler-Coherent s me post gid name h
  serve-Coherent (describe me post gid text) s h = describe_handler-Coherent s me post gid text h
  serve-Coherent (erase me post req) s h = delete_handler-Coherent s me post req h
  serve-Coherent (role me post req) s h = role_handler-Coherent s me post req h
  serve-Coherent (leave me post req) s h = leave_handler-Coherent s me post req h

-- In every request, the rows of members that it reads come and scan.
abbrev pub AllRead : List ((Query → Bool) × Endpoint) → Type 0
AllRead [] = Unit {0}
AllRead ((up, e) ∷ es) = Reads up × AllRead es

-- If every entry of the membership cache agrees with the tables, then so does every entry after any
-- sequence of requests to create or delete a group, to change its name or its description but not
-- both in one request, to change its members or roles, or to leave it, also where statements of SQL
-- fail in them; a read of the members of a group that does not fail gives all of its rows.
pub serve_all-Coherent :
    (w : World) (es : List ((Query → Bool) × Endpoint)) (s : State)
    → AllRead es
    → Coherent s
    → Coherent (serve_all w es s)
unfolding serve_all
serve_all-Coherent w [] s reads h = h
serve_all-Coherent w ((up, e) ∷ es) s reads h =
    serve_all-Coherent w es (serve w up e s) reads.1 (serve-Coherent w up reads.0 e s h)

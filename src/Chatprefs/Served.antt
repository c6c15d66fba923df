-- ===== src/Chatprefs/Served.antt =====
-- Any sequence of requests to server/chatprefs.go: the set of muted conversations and the boundaries
-- of what is cleared.
use hexeris_beta.Base.{
  ℕ, ◌≤◌, ◌≡◌, refl, sym, String, Option, none, some, Bool, true, false, List, [], ◌∷◌,
  if◌then◌else◌, ◌=s=◌, eq_iff, arith,
}
use hexeris_beta.Base.Dict.{Dict, lookup, insert, lookup-insert}
use hexeris_beta.Messages.Table.{Table}
use hexeris_beta.Chatprefs.{
  ChatPref, Prefs, muted_key, chat_muted, load_muted_cache, default_pref, coalesce, upsert, Peers,
  PrefsRequest, store_pref, chat_prefs_handler, max, conversation_max, raise_boundary,
  chat_clear_handler,
}
use hexeris_beta.Chatprefs.Coherence.{
  stored_muted, Distinct, Coherent, store_pref-Coherent, keep_muted, muted-raise_boundary,
  load_muted_cache-Coherent,
}

-- A handler answers an error and leaves the state, or does its one statement.
chat_prefs_handler_cases :
    (P : Prefs → Type 0) (ps : Peers) (up : Bool) (now : ℕ) (me : String) (q : PrefsRequest)
    (s : Prefs)
    → P s
    → P (store_pref me q.peer (upsert me q.peer q.muted q.archived now s.chat_prefs) s)
    → P (chat_prefs_handler ps up now me q s).1
unfolding chat_prefs_handler
chat_prefs_handler_cases P ps up now me q s h k = ground arith

abbrev with_pref : String → ChatPref → Prefs → Prefs
with_pref key p s = record s { chat_prefs = insert key p s.chat_prefs }

chat_clear_handler_cases :
    (P : Prefs → Type 0) (ps : Peers) (up_max up : Bool) (me peer : String) (t : Table) (s : Prefs)
    → P s
    → ((seq : ℕ) → P (with_pref (muted_key me peer) (raise_boundary me peer seq s.chat_prefs) s))
    → P (chat_clear_handler ps up_max up me peer t s).1
unfolding chat_clear_handler
chat_clear_handler_cases P ps up_max up me peer t s h k =
    ground (arith, k (conversation_max up_max me peer t))

abbrev pub cleared_in : Option ChatPref → ℕ
cleared_in none = 0
cleared_in (some p) = p.cleared_seq

unfoldable pub boundary : String → String → Prefs → ℕ
unfolding muted_key
boundary username peer s = cleared_in (lookup (muted_key username peer) s.chat_prefs)

abbrev Raised : Dict ChatPref → Dict ChatPref → Type 0
Raised before after =
    (key : String) → cleared_in (lookup key before) ≤ cleared_in (lookup key after)

insert-Raised :
    (key : String) (p : ChatPref) (rows : Dict ChatPref)
    → cleared_in (lookup key rows) ≤ p.cleared_seq
    → Raised rows (insert key p rows)
insert-Raised key p rows h k = rw (lookup-insert key k p rows) (by_test (key =s= k) refl)
  where
    by_test :
        (b : Bool)
        → (key =s= k) ≡ b
        → cleared_in (lookup k rows) ≤ cleared_in (if b then some p else lookup k rows)
    by_test true e = rw (sym ((eq_iff key k).0 e)) h
    by_test false e = omega arith

cleared-upsert :
    (username peer : String) (muted archived : Option Bool) (now : ℕ) (rows : Dict ChatPref)
    → cleared_in (lookup (muted_key username peer) rows)
      ≤ (upsert username peer muted archived now rows).cleared_seq
unfolding upsert
cleared-upsert username peer muted archived now rows =
    by_row (lookup (muted_key username peer) rows)
  where
    by_row :
        (o : Option ChatPref) → cleared_in o ≤ (coalesce o (default_pref username peer)).cleared_seq
    by_row none = omega arith
    by_row (some p) = omega arith

cleared-raise_boundary :
    (username peer : String) (seq : ℕ) (rows : Dict ChatPref)
    → cleared_in (lookup (muted_key username peer) rows)
      ≤ (raise_boundary username peer seq rows).cleared_seq
unfolding raise_boundary
cleared-raise_boundary username peer seq rows = by_row (lookup (muted_key username peer) rows)
  where
    by_row :
        (o : Option ChatPref)
        → cleared_in o ≤ max (coalesce o (default_pref username peer)).cleared_seq seq
    by_row none = omega arith
    by_row (some p) = ground arith

-- The requests that change the preferences, with the arguments of the handler beside the state.
pub data Change : Type 0 where
  set_pref : Bool → ℕ → String → PrefsRequest → Change
  clear_chat : Bool → Bool → String → String → Table → Change

unfoldable pub serve : Peers → Change → Prefs → Prefs
unfolding chat_prefs_handler chat_clear_handler
serve ps (set_pref up now me q) s = (chat_prefs_handler ps up now me q s).1
serve ps (clear_chat up_max up me peer t) s = (chat_clear_handler ps up_max up me peer t s).1

unfoldable pub serve_all : Peers → List Change → Prefs → Prefs
unfolding serve
serve_all ps [] s = s
serve_all ps (c ∷ cs) s = serve_all ps cs (serve ps c s)

serve-Coherent : (ps : Peers) (c : Change) (s : Prefs) → Coherent s → Coherent (serve ps c s)
unfolding serve
serve-Coherent ps (set_pref up now me q) s h =
    chat_prefs_handler_cases Coherent ps up now me q s h (store_pref-Coherent me q.peer _ s h)
serve-Coherent ps (clear_chat up_max up me peer t) s h =
    chat_clear_handler_cases Coherent ps up_max up me peer t s h
      (λ seq. keep_muted (muted_key me peer) _ s h (muted-raise_boundary me peer seq s.chat_prefs))

serve_all-Coherent :
    (ps : Peers) (cs : List Change) (s : Prefs) → Coherent s → Coherent (serve_all ps cs s)
unfolding serve_all
serve_all-Coherent ps [] s h = h
serve_all-Coherent ps (c ∷ cs) s h =
    serve_all-Coherent ps cs (serve ps c s) (serve-Coherent ps c s h)

-- After the set is loaded from a table with one row per user and peer, the answer from memory about
-- any user and any conversation is the column `muted` of the table (no row is "not muted"), after
-- any sequence of requests to change preferences and to clear conversations, those that are refused
-- or that fail included.
pub chat_muted-serve_all :
    (ps : Peers) (cs : List Change) (s : Prefs) (username peer : String)
    → Distinct s.chat_prefs
    → chat_muted username peer (serve_all ps cs (load_muted_cache true s))
      ≡ stored_muted username peer (serve_all ps cs (load_muted_cache true s))
unfolding chat_muted stored_muted
chat_muted-serve_all ps cs s username peer d =
    serve_all-Coherent ps cs (load_muted_cache true s) (load_muted_cache-Coherent s d)
      (muted_key username peer)

serve-Raised : (ps : Peers) (c : Change) (s : Prefs) → Raised s.chat_prefs (serve ps c s).chat_prefs
unfolding serve store_pref
serve-Raised ps (set_pref up now me q) s =
    chat_prefs_handler_cases (λ a. Raised s.chat_prefs a.chat_prefs) ps up now me q s
      (λ k. omega arith)
      (insert-Raised _ _ s.chat_prefs
        (cleared-upsert me q.peer q.muted q.archived now s.chat_prefs))
serve-Raised ps (clear_chat up_max up me peer t) s =
    chat_clear_handler_cases (λ a. Raised s.chat_prefs a.chat_prefs) ps up_max up me peer t s
      (λ k. omega arith)
      (λ seq. insert-Raised _ _ s.chat_prefs (cleared-raise_boundary me peer seq s.chat_prefs))

serve_all-Raised :
    (ps : Peers) (cs : List Change) (s : Prefs) → Raised s.chat_prefs (serve_all ps cs s).chat_prefs
unfolding serve_all
serve_all-Raised ps [] s k = omega arith
serve_all-Raised ps (c ∷ cs) s k =
    omega (arith, serve-Raised ps c s k, serve_all-Raised ps cs (serve ps c s) k)

-- No sequence of requests lowers what a user has cleared of a conversation.
pub boundary-serve_all :
    (ps : Peers) (cs : List Change) (s : Prefs) (username peer : String)
    → boundary username peer s ≤ boundary username peer (serve_all ps cs s)
unfolding boundary
boundary-serve_all ps cs s username peer = serve_all-Raised ps cs s (muted_key username peer)

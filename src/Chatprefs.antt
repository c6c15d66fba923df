-- ===== src/Chatprefs.antt =====
-- server/chatprefs.go: mute, archive and the personal boundary of what is cleared, with the set of
-- muted conversations in memory. The rows of chat_prefs stand under the key of the set, the user and
-- the peer with a NUL between, which PostgreSQL admits in neither.
pub mod Coherence
pub mod Served
use Prim.Native.String.{◌++◌ as ◌+s◌}
use hexeris_beta.Base.{
  ℕ, String, Option, none, some, Bool, true, false, not, List, [], ◌∷◌, ltb, ◌=s=◌, ◌&&◌, ◌||◌,
  if◌then◌else◌,
}
use hexeris_beta.Base.Dict.{Dict, lookup, insert, delete}
use hexeris_beta.Groups.Store.{is_group}
use hexeris_beta.Messages.Table.{Row, Table, select, between}

pub record ChatPref : Type 0 where
  pub username : String
  pub peer : String
  pub muted : Bool
  pub archived : Bool
  pub cleared_seq : ℕ
  pub archived_at : Option ℕ

-- The table and the set in memory; a name in the set has `true`.
pub record Prefs : Type 0 where
  pub chat_prefs : Dict ChatPref
  pub muted_set : Dict Bool

unfoldable pub muted_key : String → String → String
muted_key username peer = username +s ("\0" +s peer)

abbrev pub is_some {ℓ} : {A : Type ℓ} → Option A → Bool
is_some none = false
is_some (some a) = true

unfoldable pub chat_muted : String → String → Prefs → Bool
unfolding muted_key
chat_muted username peer s = is_some (lookup (muted_key username peer) s.muted_set)

unfoldable pub set_muted_cache : String → Bool → Dict Bool → Dict Bool
set_muted_cache key true set = insert key true set
set_muted_cache key false set = delete key set

-- The set at the start of the server; a failed query leaves it empty.
unfoldable pub muted_rows : Dict ChatPref → Dict Bool
muted_rows [] = []
muted_rows ((key, p) ∷ rest) =
    let later = muted_rows rest in if p.muted then (key, true) ∷ later else later

unfoldable pub load_muted_cache : Bool → Prefs → Prefs
unfolding muted_rows
load_muted_cache up s = record s { muted_set = if up then muted_rows s.chat_prefs else [] }

-- The boundaries of one user, by peer.
unfoldable pub cleared_rows : String → Dict ChatPref → Dict ℕ
cleared_rows username [] = []
cleared_rows username ((key, p) ∷ rest) =
    let later = cleared_rows username rest in
    if p.username =s= username && ltb 0 p.cleared_seq
    then insert p.peer p.cleared_seq later
    else later

unfoldable pub cleared_seqs : Bool → String → Prefs → Dict ℕ
unfolding cleared_rows
cleared_seqs up username s = if up then cleared_rows username s.chat_prefs else []

-- The key of a conversation, as the client sends it.
unfoldable pub chat_key_for : String → String → String → String
chat_key_for username from to = if is_group to then to else if from =s= username then to else from

abbrev pub coalesce {ℓ} : {A : Type ℓ} → Option A → A → A
coalesce none a = a
coalesce (some b) a = b

-- The columns of an absent row are the defaults of the table.
abbrev pub default_pref : String → String → ChatPref
default_pref username peer = record {
  username = username;
  peer = peer;
  muted = false;
  archived = false;
  cleared_seq = 0;
  archived_at = none;
}

abbrev archived_after : Option Bool → ℕ → Option ℕ → Option ℕ
archived_after none now at = at
archived_after (some true) now at = some (coalesce at now)
archived_after (some false) now at = none

-- `INSERT … ON CONFLICT … DO UPDATE`: the values that are given, and the old ones.
unfoldable pub upsert : String → String → Option Bool → Option Bool → ℕ → Dict ChatPref → ChatPref
unfolding muted_key
upsert username peer muted archived now table =
    let old = coalesce (lookup (muted_key username peer) table) (default_pref username peer) in
    record old {
      muted = coalesce muted old.muted;
      archived = coalesce archived old.archived;
      archived_at = archived_after archived now old.archived_at;
    }

-- groups.go, and the table of users (false for a failed query).
pub record Peers : Type 0 where
  pub is_group_member : String → String → Bool
  pub user_row : String → Bool

unfoldable pub chat_peer_exists : Peers → String → String → Bool
unfolding is_group
chat_peer_exists ps peer username =
    if is_group peer then ps.is_group_member peer username else ps.user_row peer

-- A field that is absent is left alone.
pub record PrefsRequest : Type 0 where
  pub peer : String
  pub muted : Option Bool
  pub archived : Option Bool

pub data Answer : Type 0 where
  refused : ℕ → Answer
  pref : ChatPref → Answer
  gone : Answer
  cleared : ℕ → Answer

unfoldable pub store_pref : String → String → ChatPref → Prefs → Prefs
unfolding set_muted_cache muted_key
store_pref username peer p s =
    let key = muted_key username peer in
    record {
      chat_prefs = insert key p s.chat_prefs;
      muted_set = set_muted_cache key p.muted s.muted_set;
    }

abbrev pub max : ℕ → ℕ → ℕ
max a b = if ltb a b then b else a

unfoldable pub max_seq : Table → ℕ
max_seq [] = 0
max_seq (r ∷ rs) = max r.seq (max_seq rs)

abbrev conversation : String → String → Row → Bool
conversation me peer r = if is_group peer then r.recipient =s= peer else between me peer r

-- A failed query of the maximum (`up` is false) reads as 0.
unfoldable pub conversation_max : Bool → String → String → Table → ℕ
unfolding max_seq select between is_group
conversation_max up me peer t = if up then max_seq (select (conversation me peer) t) else 0

-- `GREATEST(chat_prefs.cleared_seq, $3)`
unfoldable pub raise_boundary : String → String → ℕ → Dict ChatPref → ChatPref
unfolding muted_key
raise_boundary username peer seq table =
    let old = coalesce (lookup (muted_key username peer) table) (default_pref username peer) in
    record old { cleared_seq = max old.cleared_seq seq }

module _ (ps : Peers) where
  -- A POST with a decoded body; `up` says whether the statement works.
  unfoldable pub chat_prefs_handler : Bool → ℕ → String → PrefsRequest → Prefs → Answer × Prefs
  unfolding chat_peer_exists upsert store_pref
  chat_prefs_handler up now me q s =
      if q.peer =s= ""
      then (refused 400, s)
      else if not (is_some q.muted) && not (is_some q.archived)
      then (refused 400, s)
      else if q.peer =s= me
      then (refused 400, s)
      else if not (chat_peer_exists ps q.peer me)
      then (refused 404, s)
      else if not up
      then (refused 500, s)
      else (
        pref (upsert me q.peer q.muted q.archived now s.chat_prefs),
        store_pref me q.peer (upsert me q.peer q.muted q.archived now s.chat_prefs) s,
      )

  unfoldable pub chat_clear_handler : Bool → Bool → String → String → Table → Prefs → Answer × Prefs
  unfolding chat_peer_exists raise_boundary conversation_max muted_key
  chat_clear_handler up_max up me peer t s =
      let p = raise_boundary me peer (conversation_max up_max me peer t) s.chat_prefs in
      if peer =s= "" || peer =s= me
      then (refused 400, s)
      else if not (chat_peer_exists ps peer me)
      then (gone, s)
      else if not up
      then (refused 500, s)
      else (
        cleared p.cleared_seq,
        record s { chat_prefs = insert (muted_key me peer) p s.chat_prefs },
      )

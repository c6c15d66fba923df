-- ===== src/Examples/Prefs.antt =====
-- server/chatprefs.go with the preferences of one user.
use hexeris_beta.Base.{◌≡◌, refl, none, some, true, false, List, [], ◌∷◌, ◌=s=◌}
use hexeris_beta.Base.Dict.{lookup}
use hexeris_beta.Chatprefs.{ChatPref, Prefs, Peers, chat_muted, load_muted_cache, muted_key}
use hexeris_beta.Chatprefs.Coherence.{stored_muted, Distinct}
use hexeris_beta.Chatprefs.Served.{Change, set_pref, clear_chat, serve_all, chat_muted-serve_all}

abbrev peers : Peers
peers = record { is_group_member = λ group user. true; user_row = λ user. user =s= "bob" }

abbrev bob_muted : ChatPref
bob_muted = record {
  username = "ann";
  peer = "bob";
  muted = true;
  archived = false;
  cleared_seq = 3;
  archived_at = none;
}

abbrev start : Prefs
start = record { chat_prefs = (muted_key "ann" "bob", bob_muted) ∷ []; muted_set = [] }

abbrev requests : List Change
requests =
    set_pref true 5 "ann" (record { peer = "g:1"; muted = some true; archived = none })
    ∷ set_pref true 6 "ann" (record { peer = "bob"; muted = some false; archived = some true })
    ∷ clear_chat true true "ann" "bob" []
    ∷ []

start-Distinct : Distinct start.chat_prefs
unfolding lookup
start-Distinct = (refl, tt)

chat_muted-serve_all_example :
    chat_muted "ann" "bob" (serve_all peers requests (load_muted_cache true start))
    ≡ stored_muted "ann" "bob" (serve_all peers requests (load_muted_cache true start))
chat_muted-serve_all_example = chat_muted-serve_all peers requests start "ann" "bob" start-Distinct

-- ===== src/Chatprefs/Coherence.antt =====
-- The set of muted conversations in memory against the table (server/chatprefs.go).
use hexeris_beta.Base.{
  ℕ, ◌≡◌, refl, sym, ap, ◌∙◌, String, Option, none, some, Bool, true, false, [], ◌∷◌, if◌then◌else◌,
  ◌=s=◌, ◌||◌, eq_iff, arith,
}
use hexeris_beta.Base.Dict.{Dict, lookup, insert, lookup-insert, lookup-delete}
use hexeris_beta.Chatprefs.{
  ChatPref, Prefs, muted_key, is_some, set_muted_cache, muted_rows, load_muted_cache, default_pref,
  coalesce, store_pref, raise_boundary,
}

abbrev pub muted_in : Option ChatPref → Bool
muted_in none = false
muted_in (some p) = p.muted

unfoldable pub stored_muted : String → String → Prefs → Bool
unfolding muted_key
stored_muted username peer s = muted_in (lookup (muted_key username peer) s.chat_prefs)

-- A key stands once: (username, peer) is the primary key.
abbrev pub Distinct : Dict ChatPref → Type 0
Distinct [] = Unit {0}
Distinct ((key, p) ∷ rest) = (lookup key rest ≡ none) × Distinct rest

abbrev pub Coherent : Prefs → Type 0
Coherent s = (key : String) → is_some (lookup key s.muted_set) ≡ muted_in (lookup key s.chat_prefs)

some_muted :
    (key k : String) (b : Bool) (later : Dict Bool)
    → is_some (lookup k (if b then (key, true) ∷ later else later))
      ≡ (if key =s= k then b || is_some (lookup k later) else is_some (lookup k later))
unfolding lookup
some_muted key k true later = ground arith
some_muted key k false later = ground arith

pub lookup-muted_rows :
    (k : String) (rows : Dict ChatPref)
    → Distinct rows
    → is_some (lookup k (muted_rows rows)) ≡ muted_in (lookup k rows)
unfolding lookup muted_rows
lookup-muted_rows k [] d = refl
lookup-muted_rows k ((key, p) ∷ rest) d =
    some_muted key k p.muted (muted_rows rest)
    ∙ by_test (key =s= k) refl (lookup-muted_rows k rest d.1)
  where
    others : Option ChatPref
    others = lookup k rest

    or_false : (b : Bool) → (b || false) ≡ b
    or_false true = refl
    or_false false = refl

    by_test :
        (b : Bool)
        → (key =s= k) ≡ b
        → is_some (lookup k (muted_rows rest)) ≡ muted_in others
        → (if b
            then p.muted || is_some (lookup k (muted_rows rest))
            else is_some (lookup k (muted_rows rest)))
          ≡ muted_in (if b then some p else others)
    by_test true e ih =
        ap (λ (x : Bool). p.muted || x)
          (ih
            ∙ ap (λ (x : String). muted_in (lookup x rest)) (sym ((eq_iff key k).0 e))
            ∙ ap muted_in d.0)
        ∙ or_false p.muted
    by_test false e ih = ih

lookup-insert_other :
    (written key : String) (p : ChatPref) (rows : Dict ChatPref)
    → (written =s= key) ≡ false
    → lookup key rows ≡ none
    → lookup key (insert written p rows) ≡ none
lookup-insert_other written key p rows apart e = rw (lookup-insert written key p rows, apart) e

insert-Distinct :
    (key : String) (p : ChatPref) (rows : Dict ChatPref)
    → Distinct rows
    → Distinct (insert key p rows)
unfolding insert lookup
insert-Distinct key p [] d = (refl, tt)
insert-Distinct key p ((k, old) ∷ rest) d =
    by_test (k =s= key) refl (insert-Distinct key p rest d.1)
  where
    by_test :
        (b : Bool)
        → (k =s= key) ≡ b
        → Distinct (insert key p rest)
        → Distinct (if b then (key, p) ∷ rest else (k, old) ∷ insert key p rest)
    by_test true e ih = (ap (λ (x : String). lookup x rest) (sym ((eq_iff k key).0 e)) ∙ d.0, d.1)
    by_test false e ih =
        (lookup-insert_other key k p rest (ground (arith, e, eq_iff k key, eq_iff key k)) d.0, ih)

set_muted_cache_lem :
    (key k : String) (b : Bool) (set : Dict Bool)
    → is_some (lookup k (set_muted_cache key b set))
      ≡ (if key =s= k then b else is_some (lookup k set))
unfolding set_muted_cache
set_muted_cache_lem key k true set = rw (lookup-insert key k true set) (ground arith)
set_muted_cache_lem key k false set = rw (lookup-delete key k set) (ground arith)

pub muted_in-insert :
    (key k : String) (p : ChatPref) (rows : Dict ChatPref)
    → muted_in (lookup k (insert key p rows))
      ≡ (if key =s= k then p.muted else muted_in (lookup k rows))
muted_in-insert key k p rows = rw (lookup-insert key k p rows) (ground arith)

if_same : (b x y z : Bool) → (b ≡ false → y ≡ z) → (if b then x else y) ≡ (if b then x else z)
if_same true x y z h = refl
if_same false x y z h = h refl

pub store_pref-Coherent :
    (username peer : String) (p : ChatPref) (s : Prefs)
    → Coherent s
    → Coherent (store_pref username peer p s)
unfolding store_pref
store_pref-Coherent username peer p s h k =
    let key = muted_key username peer in
    set_muted_cache_lem key k p.muted s.muted_set
    ∙ if_same (key =s= k) p.muted _ _ (λ no. h k)
    ∙ sym (muted_in-insert key k p s.chat_prefs)

-- A row whose `muted` stays.
pub keep_muted :
    (key : String) (p : ChatPref) (s : Prefs)
    → Coherent s
    → p.muted ≡ muted_in (lookup key s.chat_prefs)
    → Coherent (record s { chat_prefs = insert key p s.chat_prefs })
keep_muted key p s h same k =
    h k ∙ by_test (key =s= k) refl ∙ sym (muted_in-insert key k p s.chat_prefs)
  where
    by_test :
        (b : Bool)
        → (key =s= k) ≡ b
        → muted_in (lookup k s.chat_prefs)
          ≡ (if b then p.muted else muted_in (lookup k s.chat_prefs))
    by_test true e =
        ap (λ (x : String). muted_in (lookup x s.chat_prefs)) (sym ((eq_iff key k).0 e)) ∙ sym same
    by_test false e = refl

pub muted-raise_boundary :
    (username peer : String) (seq : ℕ) (rows : Dict ChatPref)
    → (raise_boundary username peer seq rows).muted
      ≡ muted_in (lookup (muted_key username peer) rows)
unfolding raise_boundary
muted-raise_boundary username peer seq rows = by_row (lookup (muted_key username peer) rows)
  where
    by_row : (o : Option ChatPref) → (coalesce o (default_pref username peer)).muted ≡ muted_in o
    by_row none = refl
    by_row (some p) = refl

pub load_muted_cache-Coherent :
    (s : Prefs) → Distinct s.chat_prefs → Coherent (load_muted_cache true s)
unfolding load_muted_cache
load_muted_cache-Coherent s d key = lookup-muted_rows key s.chat_prefs d

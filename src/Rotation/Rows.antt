-- ===== src/Rotation/Rows.antt =====
-- Message bodies and second-factor secrets under a new key (server/rotatekey.go). Bodies are texts;
-- AES-GCM with base64 is a parameter, whose law is that a key opens what it has sealed.
pub mod Walk
pub mod Paging
pub mod Interrupted
pub mod Reading
pub mod Restart
use hexeris_beta.Base.{
  ℕ, zero, suc, ◌+◌, ◌≡◌, String, Option, none, some, Bool, true, false, List, [], ◌∷◌, ◌++◌, ltb,
  ◌==◌, take, length, if◌then◌else◌,
}

pub record Gcm : Type 0 where
  pub seal : List ℕ → List ℕ → String → String
  pub unseal : List ℕ → String → Option String
  pub unseal_seal :
      (key nonce : List ℕ) (plain : String) → unseal key (seal key nonce plain) ≡ some plain

abbrev pub rotate_batch_size : ℕ
rotate_batch_size = 500

pub record Keys : Type 0 where
  pub gcm : Gcm
  pub old_key : List ℕ
  pub new_key : List ℕ

-- How the read of a page comes out: the SELECT or a Scan fails, every row comes, or the connection
-- breaks behind some rows, which `rows.Next` reports like the end of them.
pub data PageRead : Type 0 where
  unreadable whole : PageRead
  broken_off : ℕ → PageRead

-- A run, dry or not. `nonce` is what the random source returns for an item, `none` its failure;
-- `reads` is how the read of the page behind a cursor comes out.
pub record Rotation : Type 0 where
  pub keys : Keys
  pub dry : Bool
  pub nonce : ℕ → Option (List ℕ)
  pub reads : ℕ → PageRead

-- What is done with one stored text; the process ends where the random source fails.
pub data Verdict : Type 0 where
  already foreign would_rotate dies : Verdict
  renewed : String → Verdict

unfoldable pub encrypt_with : Rotation → ℕ → String → Verdict
encrypt_with ro item plain = elim (ro.nonce item) [
  | none ↦ dies
  | some nonce ↦ renewed (ro.keys.gcm.seal ro.keys.new_key nonce plain)
]

-- Behind the attempt with the new key.
unfoldable pub with_old_key : Rotation → ℕ → Option String → Verdict
unfolding encrypt_with
with_old_key ro item none = foreign
with_old_key ro item (some plain) = if ro.dry then would_rotate else encrypt_with ro item plain

-- The new key is tried first.
unfoldable pub judge : Rotation → ℕ → String → Verdict
unfolding with_old_key
judge ro item stored = elim (ro.keys.gcm.unseal ro.keys.new_key stored) [
  | some plain ↦ already
  | none ↦ with_old_key ro item (ro.keys.gcm.unseal ro.keys.old_key stored)
]

-- A row of messages; its item number is its seq.
pub record Row : Type 0 where
  pub seq : ℕ
  pub body : String

pub record Counts : Type 0 where
  pub rotated : ℕ
  pub already : ℕ
  pub foreign : ℕ

-- The table, the counters, and whether the process goes on.
abbrev pub Progress : Type 0
Progress = List Row × Counts × Bool

-- `UPDATE messages SET body=$2 WHERE seq=$1`
unfoldable pub set_body : ℕ → String → List Row → List Row
set_body seq body [] = []
set_body seq body (r ∷ rs) =
    let rest = set_body seq body rs in
    if r.seq == seq then record r { body = body } ∷ rest else r ∷ rest

-- `up` says for every row whether its UPDATE works; a failure ends the process, as a crash does.
unfoldable pub apply : (ℕ → Bool) → ℕ → Verdict → List Row → Counts → Progress
unfolding set_body
apply up seq Verdict.already t c = (t, record c { already = c.already + 1 }, true)
apply up seq Verdict.foreign t c = (t, record c { foreign = c.foreign + 1 }, true)
apply up seq would_rotate t c = (t, record c { rotated = c.rotated + 1 }, true)
apply up seq dies t c = (t, c, false)
apply up seq (renewed enc) t c =
    if up seq
    then (set_body seq enc t, record c { rotated = c.rotated + 1 }, true)
    else (t, c, false)

abbrev pub go_on : Progress → (List Row → Counts → Progress) → Progress
go_on (t, c, true) next = next t c
go_on (t, c, false) next = (t, c, false)

abbrev pub next_page : Progress → (List Row → Counts → Option Progress) → Option Progress
next_page (t, c, true) next = next t c
next_page (t, c, false) next = some (t, c, false)

-- `WHERE seq > $1 ORDER BY seq LIMIT $2`; the table stands in the order of seq.
unfoldable pub above : ℕ → List Row → List Row
above cursor [] = []
above cursor (r ∷ rs) = let rest = above cursor rs in if ltb cursor r.seq then r ∷ rest else rest

unfoldable pub last_seq : ℕ → List Row → ℕ
last_seq cursor [] = cursor
last_seq cursor (r ∷ rs) = last_seq r.seq rs

module _ (ro : Rotation) (up : ℕ → Bool) where
  unfoldable pub rotate_batch : List Row → List Row → Counts → Progress
  unfolding apply judge
  rotate_batch [] t c = (t, c, true)
  rotate_batch (r ∷ rs) t c = go_on (apply up r.seq (judge ro r.seq r.body) t c) (rotate_batch rs)

  unfoldable pub on_page :
      (ℕ → List Row → Counts → Option Progress) → ℕ → List Row → List Row → Counts → Option Progress
  unfolding rotate_batch last_seq
  on_page later cursor [] t c = some (t, c, true)
  on_page later cursor (r ∷ rs) t c =
      next_page (rotate_batch (r ∷ rs) t c) (later (last_seq cursor (r ∷ rs)))

  -- An empty page ends the loop, also where the read was broken off; a read that fails ends the
  -- process.
  unfoldable pub on_read :
      (ℕ → List Row → Counts → Option Progress)
      → ℕ
      → PageRead
      → List Row
      → List Row
      → Counts
      → Option Progress
  unfolding on_page
  on_read later cursor unreadable page t c = some (t, c, false)
  on_read later cursor whole page t c = on_page later cursor page t c
  on_read later cursor (broken_off n) page t c = on_page later cursor (take n page) t c

  -- The loop over the pages; `none` is the end of the fuel.
  unfoldable pub rotate_pages : ℕ → ℕ → List Row → Counts → Option Progress
  unfolding on_read above
  rotate_pages zero cursor t c = none
  rotate_pages (suc fuel) cursor t c =
      on_read (rotate_pages fuel) cursor (ro.reads cursor) (take rotate_batch_size (above cursor t))
        t c

  -- `none` does not occur: this fuel is enough for the table.
  unfoldable pub rotate_messages : List Row → Counts → Option Progress
  unfolding rotate_pages
  rotate_messages t c = rotate_pages (suc (length t)) 0 t c

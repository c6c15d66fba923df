-- ===== src/Filecrypt/Serve.antt =====
-- `serveUploadedFile` of server/filecrypt.go: legacy files, ranges, HEAD, and the refusals.
pub mod Laws
use hexeris_beta.Base.{
  ℕ, zero, suc, ◌+◌, ◌-◌, ◌≤◌, Option, none, some, Bool, true, false, List, [], ◌∷◌, ◌++◌, ltb,
  ◌==◌, ◌&&◌, ◌||◌, not, length, take, drop, if◌then◌else◌,
}
use hexeris_beta.Filecrypt.Range.{parse_single_range}
use hexeris_beta.Filecrypt.Stream.{
  Aes, file_magic, file_iv_size, file_header_size, new_ctr_at, xor_key_stream,
}

-- What `os.Open` finds.
pub data Opened : Type 0 where
  not_exist denied : Opened
  contents : List ℕ → Opened

-- Only the parts of the request and of the system's answers that the handler reads.
pub record Request : Type 0 where
  pub is_head : Bool
  pub range : Option (List ℕ)
  pub stat_ok : Bool
  pub seek_ok : Bool

pub data Response : Type 0 where
  not_found server_error : Response
  -- `http.ServeFile`, on the bytes as they are
  legacy : List ℕ → Response
  -- status, the Content-Range (start, end, size), the Content-Length and the body
  stream : ℕ → Option (ℕ × ℕ × ℕ) → ℕ → List ℕ → Response

unfoldable pub has_prefix : List ℕ → List ℕ → Bool
has_prefix b [] = true
has_prefix [] (p ∷ ps) = false
has_prefix (c ∷ b) (p ∷ ps) = c == p && has_prefix b ps

-- The part of the plaintext that is served: status, Content-Range, start and length.
pub record Part : Type 0 where
  pub status : ℕ
  pub content_range : Option (ℕ × ℕ × ℕ)
  pub start : ℕ
  pub count : ℕ

abbrev whole : ℕ → Part
whole size = record { status = 200; content_range = none; start = 0; count = size }

part_of : ℕ → Option (ℕ × ℕ) → Part
part_of size none = whole size
part_of size (some (s, e)) = record {
  status = 206;
  content_range = some (s, e, size);
  start = s;
  count = e - s + 1;
}

-- A Range is looked at only if it is not empty and the file has a byte.
unfoldable pub choose_part : Option (List ℕ) → ℕ → Part
unfolding part_of
choose_part none size = whole size
choose_part (some []) size = whole size
choose_part (some (c ∷ cs)) size =
    if ltb 0 size then part_of size (parse_single_range (c ∷ cs) size) else whole size

module _ (aes : Aes) (key : List ℕ) where
  serve_encrypted : Request → List ℕ → Response
  unfolding choose_part
  serve_encrypted r bytes =
      let iv = take file_iv_size (drop 4 bytes) in
      let part = choose_part r.range (length bytes - file_header_size) in
      if not r.stat_ok
      then server_error
      else if r.is_head
      then stream part.status part.content_range part.count []
      else if not r.seek_ok
      then server_error
      else stream part.status part.content_range part.count (
          xor_key_stream aes (new_ctr_at key iv part.start)
            (take part.count (drop (file_header_size + part.start) bytes)))

  unfoldable pub serve_uploaded_file : Request → Opened → Response
  unfolding serve_encrypted
  serve_uploaded_file r not_exist = not_found
  serve_uploaded_file r denied = server_error
  serve_uploaded_file r (contents bytes) =
      let header = take file_header_size bytes in
      if ltb (length bytes) file_header_size || not (has_prefix header file_magic)
      then legacy bytes
      else serve_encrypted r bytes

-- ===== src/WebServer.antt =====
-- src/web_server.h and src/web_server.c: the HTTP server. A request becomes an `Answer`, which is then
-- sent. The file system and the sockets are parameters.
pub mod Send
pub mod Safe
use two_stream_recovery.Base.Text.{
  skip_space, Text, codes, same, is_empty, is_space, without_prefix, split_last,
}
use two_stream_recovery.Base.{
  length, ◌&&◌, zero, not, none, pos, ◌==◌, suc, leb, some, ◌++◌, [], false, negsuc, ◌||◌, ◌∷◌,
  List, ℤ, ℕ, Bool, if◌then◌else◌, Option,
}

-- The file system: `stat` gives the size of a regular file (`none` for anything else), and `fopen`
-- with `fread` the blocks that the file is read in.
pub record Files : Type 0 where
  pub stat : Text → Option ℤ
  pub read : Text → Option (List Text)

-- What a client is told: nothing, an error, the statistics, or a file.
pub data Answer : Type 0 where
  silence : Answer
  refusal : ℕ → Text → Answer
  stats_json : Text → Answer
  file : Text → ℕ → List Text → Answer

-- `content_type_for_path`.
unfoldable pub content_type : Text → Text
unfolding split_last same
content_type path = elim (split_last b'.' path) [
  | none ↦ codes "application/octet-stream"
  | some (_, suffix) ↦
      if same suffix (codes "html")
      then codes "text/html; charset=utf-8"
      else if same suffix (codes "css")
      then codes "text/css; charset=utf-8"
      else if same suffix (codes "js")
      then codes "application/javascript; charset=utf-8"
      else if same suffix (codes "png")
      then codes "image/png"
      else codes "application/octet-stream"
]

-- `strstr(path, "..") != NULL`.
unfoldable pub has_parent : Text → Bool
has_parent [] = false
has_parent (c ∷ []) = false
has_parent (c ∷ d ∷ s) = (c == b'.' && d == b'.') || has_parent (d ∷ s)

abbrev pub opened : Text → ℕ → Option (List Text) → Answer
opened path size none = refusal 404 (codes "not found")
opened path size (some blocks) = file path size blocks

abbrev pub sized : Files → Text → ℤ → Answer
sized files path (negsuc n) = refusal 500 (codes "bad file size")
sized files path (pos size) = opened path size (files.read path)

-- `handle_static_file` up to the reply.
unfoldable pub static_file : Files → Text → Text → Answer
unfolding has_parent same
static_file files webroot url_path =
    let page = if same url_path (codes "/") then codes "/index.html" else url_path in
    let path = webroot ++ page in
    if has_parent url_path
    then refusal 400 (codes "bad request")
    else if leb 512 (length path)
    then refusal 414 (codes "uri too long")
    else elim (files.stat path) [
      | none ↦ refusal 404 (codes "not found")
      | some size ↦ sized files path size
    ]

-- `handle_api_stats` up to the reply; `none` is a text that is too long.
abbrev pub api_stats : Option Text → Answer
api_stats none = refusal 500 (codes "stats json too large")
api_stats (some json) = stats_json json

-- A string ends at its first zero byte.
unfoldable pub until : ℕ → Text → Text
until stop [] = []
until stop (c ∷ s) = let rest = until stop s in if c == stop then [] else c ∷ rest

-- What `%<n>s` takes behind leading space: up to `n` bytes before the next space, with the rest.
unfoldable pub take_word : ℕ → Text → Text × Text
take_word zero s = ([], s)
take_word (suc n) [] = ([], [])
take_word (suc n) (c ∷ s) =
    let (word, rest) = take_word n s in if is_space c then ([], c ∷ s) else (c ∷ word, rest)

-- `sscanf(request, "%7s %255s", method, path)`; `none` unless both are there.
unfoldable pub scan_request : Text → Option (Text × Text)
unfolding skip_space take_word
scan_request request =
    let (method, rest) = take_word 7 (skip_space request) in
    let (path, _) = take_word 255 (skip_space rest) in
    if is_empty method || is_empty path then none else some (method, path)

-- `handle_client` from the request on.
unfoldable pub answer : Files → Text → Option Text → Text → Answer
unfolding scan_request until static_file same
answer files webroot json request = elim (scan_request (until 0 request)) [
  | none ↦ refusal 400 (codes "bad request")
  | some (method, target) ↦
      let path = until b'?' target in
      if not (same method (codes "GET"))
      then refusal 405 (codes "method not allowed")
      else if same path (codes "/api/stats")
      then api_stats json
      else static_file files webroot path
]

-- `handle_client`; `none` is a `recv` that gave nothing. It reads 2047 bytes at most.
abbrev pub handle_client : Files → Text → Option Text → Option Text → Answer
handle_client files webroot json none = silence
handle_client files webroot json (some []) = silence
handle_client files webroot json (some (c ∷ s)) = answer files webroot json (c ∷ s)

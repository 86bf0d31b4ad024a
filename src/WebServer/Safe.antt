-- ===== src/WebServer/Safe.antt =====
-- src/web_server.c: which files the server gives away.
use two_stream_recovery.Base.{
  sym, ◌∙◌, arith, [], ◌∷◌, true, leb, Option-cases, inr, inl, ap, ◌<◌, length, none, Bool-cases,
  negsuc, some, pos, if◌then◌else◌, ◌++◌, Option, false, List, ℤ, ℕ, ◌≡◌, refl,
}
use mathlib.Core.Path.{subst}
use two_stream_recovery.Base.Text.{Text, codes, same}
use two_stream_recovery.WebServer.{
  Files, file, has_parent, opened, sized, static_file, scan_request, until, answer, handle_client,
  api_stats,
}

-- The page of a URL path: the index for the root.
abbrev pub page_of : Text → Text
page_of url = if same url (codes "/") then codes "/index.html" else url

-- The path of a file that is given away is the name of the web root with the page directly behind
-- it, has no `..` behind the web root and fits into its buffer; the file is a regular file, and its
-- size and its blocks are those of the file system.
pub record IsServed (files : Files) (webroot url path : Text) (size : ℕ) (blocks : List Text)
    : Type 0 where
  pub joined : path ≡ webroot ++ page_of url
  pub no_parent : has_parent (page_of url) ≡ false
  pub fits : length path < 512
  pub is_regular : files.stat path ≡ some (pos size)
  pub readable : files.read path ≡ some blocks

opened_sound :
    (path path' : Text) (size size' : ℕ) (found : Option (List Text)) (blocks : List Text)
    → opened path size found ≡ file path' size' blocks
    → (path ≡ path') × (size ≡ size') × (found ≡ some blocks)
opened_sound path path' size size' none blocks h = cc
opened_sound path path' size size' (some b) blocks h = (cc, cc, cc)

sized_sound :
    (files : Files) (path path' : Text) (size : ℤ) (size' : ℕ) (blocks : List Text)
    → sized files path size ≡ file path' size' blocks
    → (path ≡ path') × (size ≡ pos size') × (files.read path ≡ some blocks)
sized_sound files path path' (negsuc n) size' blocks h = cc
sized_sound files path path' (pos n) size' blocks h =
    let (a, b, c) = opened_sound path path' n size' (files.read path) blocks h in (a, ap pos b, c)

page_of-no_parent : (url : Text) → has_parent url ≡ false → has_parent (page_of url) ≡ false
unfolding has_parent
page_of-no_parent url h = elim (Bool-cases (same url (codes "/"))) [
  | inl root ↦ rw root refl
  | inr other ↦ rw other h
]

static_file-IsServed :
    (files : Files) (webroot url path : Text) (size : ℕ) (blocks : List Text)
    → static_file files webroot url ≡ file path size blocks
    → IsServed files webroot url path size blocks
unfolding static_file
static_file-IsServed files webroot url path size blocks h =
    let path' = webroot ++ page_of url in
    elim (Bool-cases (has_parent url)) [
      | inl up ↦ cc (rw (up, static_file) at h)
      | inr down ↦ elim (Bool-cases (leb 512 (length path'))) [
        | inl long ↦ cc (rw (down, long, static_file) at h)
        | inr short ↦ elim (Option-cases (files.stat path')) [
          | inl gone ↦ cc (rw (down, short, gone, static_file) at h)
          | inr (n, there) ↦
              let (same_path, same_size, blocks_read) =
                sized_sound files path' path n size blocks
                  (rw (down, short, there, static_file) at h) in
              let fits : length path' < 512 = ground arith in
              record {
                joined = sym same_path;
                no_parent = page_of-no_parent url down;
                fits = subst (λ t. length t < 512) same_path fits;
                is_regular =
                    subst (λ t. files.stat t ≡ some (pos size)) same_path
                      (there ∙ ap some same_size);
                readable = subst (λ t. files.read t ≡ some blocks) same_path blocks_read;
              }
        ]
      ]
    ]

api_stats-not_file :
    (json : Option Text) (path : Text) (size : ℕ) (blocks : List Text)
    → api_stats json ≡ file path size blocks
    → ⊥
api_stats-not_file none path size blocks h = cc
api_stats-not_file (some text) path size blocks h = cc

-- A request that is answered with a file is a GET, and not one for the statistics.
pub record IsGranted (files : Files) (webroot request path : Text) (size : ℕ) (blocks : List Text)
    : Type 0 where
  pub target : Text
  pub scanned : scan_request (until 0 request) ≡ some (codes "GET", target)
  pub served : IsServed files webroot (until b'?' target) path size blocks

same_sound : (s t : Text) → same s t ≡ true → s ≡ t
unfolding same
same_sound [] [] h = refl
same_sound [] (d ∷ t) h = cc
same_sound (c ∷ s) [] h = cc
same_sound (c ∷ s) (d ∷ t) h =
    let here : c ≡ d = ground arith in
    let rest : same s t ≡ true = ground arith in
    ap (λ x. x ∷ s) here ∙ ap (λ r. d ∷ r) (same_sound s t rest)

answer-IsGranted :
    (files : Files) (webroot : Text) (json : Option Text) (request path : Text) (size : ℕ)
    (blocks : List Text)
    → answer files webroot json request ≡ file path size blocks
    → IsGranted files webroot request path size blocks
unfolding answer
answer-IsGranted files webroot json request path size blocks h =
    elim (Option-cases (scan_request (until 0 request))) [
      | inl bad ↦ cc (rw (bad, answer) at h)
      | inr ((method, target), good) ↦ elim (Bool-cases (same method (codes "GET"))) [
        | inr other ↦ cc (rw (good, other, answer) at h)
        | inl get ↦ elim (Bool-cases (same (until b'?' target) (codes "/api/stats"))) [
          | inl api ↦
              absurd (api_stats-not_file json path size blocks (rw (good, get, api, answer) at h))
          | inr page ↦ record {
            target = target;
            scanned = good ∙ ap (λ m. some (m, target)) (same_sound method (codes "GET") get);
            served =
                static_file-IsServed files webroot (until b'?' target) path size blocks
                  (rw (good, get, page, answer) at h);
          }
        ]
      ]
    ]

-- Whatever bytes a client sends: if the server gives it a file, the request was a GET, and the path is
-- the name of the web root with the target of the request directly behind it, up to a question mark
-- and with `/index.html` for `/`. There is no `..` behind the web root, the path has less than 512 bytes,
-- and the file is a regular one whose size and blocks are those that the file system gives for the
-- path.
-- Whether the target begins with a slash is not looked at.
pub handle_client-IsGranted :
    (files : Files) (webroot : Text) (json : Option Text) (request path : Text) (size : ℕ)
    (blocks : List Text)
    → handle_client files webroot json (some request) ≡ file path size blocks
    → IsGranted files webroot request path size blocks
handle_client-IsGranted files webroot json [] path size blocks h = cc
handle_client-IsGranted files webroot json (c ∷ s) path size blocks h =
    answer-IsGranted files webroot json (c ∷ s) path size blocks h

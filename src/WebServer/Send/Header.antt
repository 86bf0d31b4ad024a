-- ===== src/WebServer/Send/Header.antt =====
-- src/web_server.c, `send_response_header`: the header fits into its buffer of 512 bytes, whatever the
-- answer. (`snprintf` returns the length of the whole text, and that many bytes are sent.)
use two_stream_recovery.WebServer.{
  silence, file, opened, until, stats_json, sized, handle_client, scan_request, api_stats, refusal,
  has_parent, answer, Files, static_file, Answer, content_type,
}
use two_stream_recovery.Base.{
  pos, none, negsuc, not, some, leb, ◌<◌, List, ℤ, Option, false, true, zero, ◌%◌, if◌then◌else◌,
  ◌/◌, ◌++◌, Bool, Option-cases, length-append, inr, inl, ltb, Bool-cases, suc, arith, [], ◌+◌, ◌∷◌,
  ◌≤◌, ◌≡◌, ℕ, length, refl,
}
use two_stream_recovery.Base.Text.{Text, codes, same, split_last}
use two_stream_recovery.Base.Text.Decimal.{decimal, numeral}
use two_stream_recovery.WebServer.Send.{Client, header, send_all, send_response, reply}

crlf : codes "\r\n" ≡ 13 ∷ 10 ∷ []
crlf = refl

length-numeral : (fuel n : ℕ) → length (numeral fuel n) ≤ fuel
unfolding numeral
length-numeral zero n = omega arith
length-numeral (suc fuel) n = elim (Bool-cases (ltb n 10)) [
  | inl one ↦ rw (one, numeral) (omega arith)
  | inr more ↦
      rw (more, numeral)
        (omega (
          arith,
          length-append (numeral fuel (n / 10)) ((b'0' + n % 10) ∷ []),
          length-numeral fuel (n / 10),
        ))
]

length-decimal : (n : ℕ) → length (decimal n) ≤ 20
unfolding decimal
length-decimal n = length-numeral 20 n

choice-length :
    (b : Bool) (s t : Text) → length s ≤ 38 → length t ≤ 38 → length (if b then s else t) ≤ 38
choice-length true s t h k = h
choice-length false s t h k = k

length-content_type : (path : Text) → length (content_type path) ≤ 38
unfolding content_type
length-content_type path = elim (Option-cases (split_last b'.' path)) [
  | inl plain ↦ rw (plain, content_type) (omega arith)
  | inr ((front, suffix), there) ↦
      rw (there, content_type)
        (choice-length (same suffix (codes "html")) _ _ (omega arith) (
          choice-length (same suffix (codes "css")) _ _ (omega arith) (
            choice-length (same suffix (codes "js")) _ _ (omega arith)
              (choice-length (same suffix (codes "png")) _ _ (omega arith) (omega arith)))))
]

length-header :
    (status : ℕ) (reason kind : Text) (body_size : ℕ)
    → length (header status reason kind body_size) ≤ 139 + length reason + length kind
unfolding header
length-header status reason kind body_size =
    let r4 = codes "\r\n\r\n" in
    let r3 = codes "\r\nContent-Length: " ++ (decimal body_size ++ r4) in
    let fields = codes "\r\nConnection: close\r\nCache-Control: no-store\r\nContent-Type: " in
    let r2 = fields ++ (kind ++ r3) in
    let r1 = codes " " ++ (reason ++ r2) in
    omega (
      arith,
      length-append (decimal status) r1,
      length-append reason r2,
      length-append kind r3,
      length-append (decimal body_size) r4,
      length-decimal status,
      length-decimal body_size,
    )

-- The header that `reply` sends for an answer.
abbrev pub header_of : Answer → Text
header_of silence = []
header_of (refusal status reason) =
    header status reason (codes "text/plain; charset=utf-8") (length reason)
header_of (stats_json json) =
    header 200 (codes "OK") (codes "application/json; charset=utf-8") (length json)
header_of (file path size blocks) = header 200 (codes "OK") (content_type path) size

-- It is what `reply` sends first: where it is not taken as a whole, nothing else is sent.
reply-header_of :
    (client : Client) (a : Answer)
    → (send_all client (header_of a)).0 ≡ false
    → reply client a ≡ (send_all client (header_of a)).1
unfolding reply send_response
reply-header_of client silence h = cc
reply-header_of client (refusal status reason) h = rw h refl
reply-header_of client (stats_json json) h = rw h refl
reply-header_of client (file path size blocks) h = rw h refl

-- The reason of a refusal is short.
abbrev IsBrief : Answer → Type 0
IsBrief silence = Unit {0}
IsBrief (refusal status reason) = length reason ≤ 22
IsBrief (stats_json json) = Unit {0}
IsBrief (file path size blocks) = Unit {0}

header_of-brief : (a : Answer) → IsBrief a → length (header_of a) < 512
header_of-brief silence h = omega arith
header_of-brief (refusal status reason) h =
    omega (arith, length-header status reason (codes "text/plain; charset=utf-8") (length reason))
header_of-brief (stats_json json) h =
    omega (
      arith,
      length-header 200 (codes "OK") (codes "application/json; charset=utf-8") (length json),
    )
header_of-brief (file path size blocks) h =
    omega (arith, length-header 200 (codes "OK") (content_type path) size, length-content_type path)

if-IsBrief : (b : Bool) (s t : Answer) → IsBrief s → IsBrief t → IsBrief (if b then s else t)
if-IsBrief true s t h k = h
if-IsBrief false s t h k = k

opened-IsBrief :
    (path : Text) (size : ℕ) (found : Option (List Text)) → IsBrief (opened path size found)
opened-IsBrief path size none = omega arith
opened-IsBrief path size (some blocks) = tt

sized-IsBrief : (files : Files) (path : Text) (size : ℤ) → IsBrief (sized files path size)
sized-IsBrief files path (negsuc n) = omega arith
sized-IsBrief files path (pos n) = opened-IsBrief path n (files.read path)

static_file-IsBrief : (files : Files) (webroot url : Text) → IsBrief (static_file files webroot url)
unfolding static_file
static_file-IsBrief files webroot url =
    let path = webroot ++ (if same url (codes "/") then codes "/index.html" else url) in
    if-IsBrief (has_parent url) _ _ (omega arith) (
      if-IsBrief (leb 512 (length path)) _ _ (omega arith) (elim (Option-cases (files.stat path)) [
        | inl gone ↦ rw gone (omega arith)
        | inr (size, there) ↦ rw there (sized-IsBrief files path size)
      ]))

api_stats-IsBrief : (json : Option Text) → IsBrief (api_stats json)
api_stats-IsBrief none = omega arith
api_stats-IsBrief (some text) = tt

answer-IsBrief :
    (files : Files) (webroot : Text) (json : Option Text) (request : Text)
    → IsBrief (answer files webroot json request)
unfolding answer
answer-IsBrief files webroot json request = elim (Option-cases (scan_request (until 0 request))) [
  | inl bad ↦ rw (bad, answer) (omega arith)
  | inr ((method, target), good) ↦
      rw (good, answer)
        (if-IsBrief (not (same method (codes "GET"))) _ _ (omega arith) (
          if-IsBrief (same (until b'?' target) (codes "/api/stats")) _ _ (api_stats-IsBrief json)
            (static_file-IsBrief files webroot (until b'?' target))))
]

-- Whatever bytes a client sends, the header of the answer is shorter than the buffer of 512 bytes that
-- it is printed to, so `send_response_header` sends no byte from beyond the buffer.
pub header_of-fits :
    (files : Files) (webroot : Text) (json : Option Text) (request : Option Text)
    → length (header_of (handle_client files webroot json request)) < 512
header_of-fits files webroot json none = omega arith
header_of-fits files webroot json (some []) = omega arith
header_of-fits files webroot json (some (c ∷ s)) =
    header_of-brief (answer files webroot json (c ∷ s)) (answer-IsBrief files webroot json (c ∷ s))

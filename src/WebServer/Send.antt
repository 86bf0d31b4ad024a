-- ===== src/WebServer/Send.antt =====
-- src/web_server.c: how an answer is sent. `send` is the system's: `answers n` is what the `n`-th call
-- returns. A call that a signal interrupts is made again, so it is not among them.
pub mod Whole
pub mod Header
use two_stream_recovery.Base.{
  false, ◌==◌, none, zero, true, not, [], suc, length, ◌++◌, some, ◌∷◌, Bool, List, ℕ,
  if◌then◌else◌, ◌+◌, Option,
}
use two_stream_recovery.Base.Text.{Text, codes, is_empty}
use two_stream_recovery.Base.Text.Decimal.{decimal}
use two_stream_recovery.WebServer.{Answer, silence, refusal, stats_json, file, content_type}

-- The bytes that a client has been sent.
pub record Client : Type 0 where
  pub answers : ℕ → Option ℕ
  pub calls : ℕ
  pub written : Text

abbrev pub first : ℕ → Text → Text
first zero s = []
first (suc n) [] = []
first (suc n) (c ∷ s) = c ∷ first n s

abbrev pub beyond : ℕ → Text → Text
beyond zero s = s
beyond (suc n) [] = []
beyond (suc n) (c ∷ s) = beyond n s

-- `sent <= 0` is false and `sent` is the count.
abbrev pub count_of : Option ℕ → ℕ
count_of none = 0
count_of (some n) = n

unfoldable pub after_send : Client → Text → Client
after_send client buffer = record client {
  calls = client.calls + 1;
  written = client.written ++ first (count_of (client.answers client.calls)) buffer;
}

-- `send_all`, with the rounds that are left. Each call sends a byte at least, or ends the loop.
unfoldable pub send_loop : ℕ → Client → Text → Bool × Client
unfolding after_send
send_loop zero client buffer = (is_empty buffer, client)
send_loop (suc rounds) client buffer =
    let sent : ℕ = count_of (client.answers client.calls) in
    let rest = send_loop rounds (after_send client buffer) (beyond sent buffer) in
    if is_empty buffer
    then (true, client)
    else if sent == 0
    then (false, after_send client buffer)
    else rest

unfoldable pub send_all : Client → Text → Bool × Client
unfolding send_loop
send_all client buffer = send_loop (length buffer) client buffer

-- The text of `send_response_header`.
unfoldable pub header : ℕ → Text → Text → ℕ → Text
header status reason kind body_size =
    let length_line = codes "\r\nContent-Length: " ++ (decimal body_size ++ codes "\r\n\r\n") in
    let fields = codes "\r\nConnection: close\r\nCache-Control: no-store\r\nContent-Type: " in
    codes "HTTP/1.1 "
    ++ (decimal status ++ (codes " " ++ (reason ++ (fields ++ (kind ++ length_line)))))

-- `send_response`.
unfoldable pub send_response : Client → ℕ → Text → Text → Text → Client
unfolding send_all header
send_response client status reason kind body =
    let (taken, client') = send_all client (header status reason kind (length body)) in
    let (_, client'') = send_all client' body in
    if not taken then client' else if is_empty body then client' else client''

-- The loop over the blocks of a file.
unfoldable pub send_blocks : Client → List Text → Client
unfolding send_all
send_blocks client [] = client
send_blocks client (block ∷ blocks) =
    let (taken, client') = send_all client block in
    let rest = send_blocks client' blocks in if taken then rest else client'

-- The reply to a client.
unfoldable pub reply : Client → Answer → Client
unfolding send_response send_all send_blocks header content_type
reply client silence = client
reply client (refusal status reason) =
    send_response client status reason (codes "text/plain; charset=utf-8") reason
reply client (stats_json json) =
    send_response client 200 (codes "OK") (codes "application/json; charset=utf-8") json
reply client (file path size blocks) =
    let (taken, client') = send_all client (header 200 (codes "OK") (content_type path) size) in
    if taken then send_blocks client' blocks else client'

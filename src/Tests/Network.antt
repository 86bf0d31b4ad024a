-- ===== src/Tests/Network.antt =====
-- Tests of the command line, the URLs, the sockets and the web server.
use two_stream_recovery.Base.{
  ◌⊎◌, ◌*◌, ◌≤◌, ◌-◌, ltb, ◌^◌, ◌<◌, pos, if◌then◌else◌, arith, true, ◌≡◌, none, ◌++◌, some, length,
  false, refl, [], ◌∷◌, List,
}
use two_stream_recovery.Base.Text.{
  IsNumeral, Text, codes, same, is_empty, strtoull, number, read_digits, skip_space, split_last,
  without_prefix,
}
use two_stream_recovery.Base.Text.Decimal.{decimal}
use two_stream_recovery.CommandLine.{parse_u64, parse_u64_ms, parse_u32}
use two_stream_recovery.CommandLine.Values.{parse-decimal, parse_u64-minus}
use two_stream_recovery.InputUdp.{parse_url, address_of, with_port}
use two_stream_recovery.InputUdp.Url.{parse_url_sound, parse_url-printed}
use two_stream_recovery.InputUdp.Socket.{open_with_interface}
use two_stream_recovery.InputUdp.Socket.Leak.{open_with_interface-IsSettled}
use two_stream_recovery.OutputUdp.Open.{Process, open_url, open_url-IsSettled}
use two_stream_recovery.WebServer.{
  Files, file, handle_client, answer, scan_request, take_word, until, static_file, has_parent,
}
use two_stream_recovery.WebServer.Safe.{IsGranted, handle_client-IsGranted}
use two_stream_recovery.WebServer.Send.{Client, send_all}
use two_stream_recovery.WebServer.Send.Whole.{IsSent, send_all-IsSent}
use two_stream_recovery.WebServer.Send.Header.{header_of, header_of-fits}
use two_stream_recovery.InputUdp.Socket
use two_stream_recovery.InputUdp.Socket.Leak
use two_stream_recovery.OutputUdp.Open

abbrev pub args : List Text
args =
    codes "--input-primary-url"
    ∷ codes "udp://239.1.1.1:5000"
    ∷ codes "--http-port"
    ∷ codes "8080"
    ∷ codes "--console-report"
    ∷ codes "--input-secondary-url"
    ∷ codes "udp://239.1.1.2:5000"
    ∷ []

parse-decimal_example :
    (parse_u64 (decimal 443) ≡ some 443)
    × (parse_u64_ms (decimal 443)
        ≡ (if ltb 18446744073709 443 then none else some (443 * 1_000_000)))
    × (parse_u32 (decimal 443) 255 ≡ (if ltb 255 443 then none else some 443))
parse-decimal_example = parse-decimal 443 255 (omega arith) (omega arith)

parse_u64-minus_example : parse_u64 (b'-' ∷ decimal 1) ≡ some (2 ^ 64 - 1)
parse_u64-minus_example = parse_u64-minus 1 (omega arith) (omega arith)

abbrev group : Text
group = codes "239.1.1.1"

abbrev url : Text
url = codes "udp://239.1.1.1:5000"

url_is_parsed : parse_url url 128 ≡ some (group, 5000)
unfolding parse_url address_of with_port without_prefix split_last strtoull number read_digits
    skip_space
url_is_parsed = refl

parse_url_sound_example :
    (is_empty group ≡ false)
    × (length group < 128)
    × (5000 ≤ 65535)
    × ((text : Text) × (address_of url ≡ group ++ (b':' ∷ text)) × IsNumeral text 5000)
    × ((url ≡ address_of url) ⊎ (url ≡ codes "udp://" ++ address_of url))
parse_url_sound_example = parse_url_sound url 128 group 5000 url_is_parsed

parse_url-printed_example :
    parse_url (codes "udp://" ++ (group ++ (b':' ∷ decimal 5000))) 128 ≡ some (group, 5000)
parse_url-printed_example = parse_url-printed group 128 5000 refl (omega arith) (omega arith)

-- A system in which the membership is refused.
abbrev refusing : Socket.System
refusing = record {
  inet_pton = λ name. some 0xef010101;
  socket = some 3;
  sets_reuse_address = true;
  sets_reuse_port = true;
  binds = true;
  adds_membership = false;
  gets_flags = true;
  sets_flags = true;
}

abbrev pub at_start : Socket.Kernel
at_start = record { is_open = λ fd. false; bound = λ fd. none; membership = λ fd. none }

open_with_interface-IsSettled_example :
    Leak.IsSettled at_start (open_with_interface refusing url none at_start)
open_with_interface-IsSettled_example =
    open_with_interface-IsSettled refusing url none at_start (λ fd given. refl)

abbrev resolving : Open.System
resolving = record { calloc = some 9; socket = some 4; inet_pton = λ name. some 0x7f000001 }

abbrev at_first : Process
at_first = record { is_open = λ fd. false; is_allocated = λ block. false }

open_url-IsSettled_example : Open.IsSettled at_first (open_url resolving url at_first)
open_url-IsSettled_example =
    open_url-IsSettled resolving url at_first (λ fd given. refl) (λ block given. refl)

-- Every path is a file of five bytes.
abbrev files : Files
files = record { stat = λ path. some (pos 5); read = λ path. some (codes "hello" ∷ []) }

abbrev request : Text
request = codes "GET /?x=1 HTTP/1.1\r\n\r\n"

index_is_served :
    handle_client files (codes "webroot") none (some request)
    ≡ file (codes "webroot/index.html") 5 (codes "hello" ∷ [])
unfolding answer scan_request take_word skip_space until static_file has_parent same
index_is_served = refl

handle_client-IsGranted_example :
    IsGranted files (codes "webroot") request (codes "webroot/index.html") 5 (codes "hello" ∷ [])
handle_client-IsGranted_example =
    handle_client-IsGranted files (codes "webroot") none request (codes "webroot/index.html") 5
      (codes "hello" ∷ []) index_is_served

-- Each call takes two bytes.
abbrev slow : Client
slow = record { answers = λ n. some 2; calls = 0; written = [] }

send_all-IsSent_example :
    IsSent slow (send_all slow (codes "hello")).1 (send_all slow (codes "hello")).0 (codes "hello")
send_all-IsSent_example = send_all-IsSent slow (codes "hello")

header_of-fits_example :
    length (header_of (handle_client files (codes "webroot") none (some request))) < 512
header_of-fits_example = header_of-fits files (codes "webroot") none (some request)

-- ===== src/WebServer/Send/Whole.antt =====
-- src/web_server.c, `send_all`: what has been sent when it ends.
use two_stream_recovery.Base.{
  ◌∙◌, append_assoc, ◌==◌, inr, inl, Bool-cases, zero, ap, append-nil, arith, sym, ◌∷◌, ◌≤◌, ◌<◌,
  [], suc, ◌-◌, false, true, length, ◌++◌, Bool, ◌≡◌, ℕ, refl,
}
use two_stream_recovery.Base.Text.{Text, is_empty}
use two_stream_recovery.WebServer.Send.{
  Client, first, beyond, count_of, after_send, send_loop, send_all,
}

first-beyond : (n : ℕ) (s : Text) → first n s ++ beyond n s ≡ s
first-beyond zero s = refl
first-beyond (suc n) [] = refl
first-beyond (suc n) (c ∷ s) = ap (λ r. c ∷ r) (first-beyond n s)

length-beyond : (n : ℕ) (s : Text) → length (beyond n s) ≡ length s - n
length-beyond zero s = omega arith
length-beyond (suc n) [] = omega arith
length-beyond (suc n) (c ∷ s) = omega (arith, length-beyond n s)

is_empty-nil : (s : Text) → is_empty s ≡ true → s ≡ []
is_empty-nil [] h = refl
is_empty-nil (c ∷ s) h = cc

filled-length : (s : Text) → is_empty s ≡ false → 0 < length s
filled-length [] h = cc
filled-length (c ∷ s) h = omega arith

-- The bytes that went out, and those that did not.
pub record IsSent (client client' : Client) (taken : Bool) (buffer : Text) : Type 0 where
  pub out : Text
  pub kept : Text
  pub parts : out ++ kept ≡ buffer
  pub written : client'.written ≡ client.written ++ out
  pub whole : taken ≡ is_empty kept

send_loop-IsSent :
    (rounds : ℕ) (client : Client) (buffer : Text)
    → length buffer ≤ rounds
    → IsSent client (send_loop rounds client buffer).1 (send_loop rounds client buffer).0 buffer
unfolding send_loop after_send
send_loop-IsSent zero client buffer h = record {
  out = [];
  kept = buffer;
  parts = refl;
  written = sym (append-nil client.written);
  whole = refl;
}
send_loop-IsSent (suc rounds) client buffer h =
    let sent : ℕ = count_of (client.answers client.calls) in
    let client' = after_send client buffer in
    elim (Bool-cases (is_empty buffer)) [
      | inl over ↦ rw over (record {
        out = [];
        kept = [];
        parts = sym (is_empty-nil buffer over);
        written = sym (append-nil client.written);
        whole = refl;
      })
      | inr more ↦ elim (Bool-cases (sent == 0)) [
        | inl stuck ↦
            let none_sent : sent ≡ 0 = ground arith in
            rw (more, stuck)
              (record {
                out = [];
                kept = buffer;
                parts = refl;
                written = ap (λ n. client.written ++ first n buffer) none_sent;
                whole = sym more;
              })
        | inr some_sent ↦
            let shorter : length (beyond sent buffer) ≤ rounds =
              ground (arith, length-beyond sent buffer) in
            let rest = send_loop-IsSent rounds client' (beyond sent buffer) shorter in
            rw (more, some_sent)
              (record {
                out = first sent buffer ++ rest.out;
                kept = rest.kept;
                parts =
                    append_assoc (first sent buffer) rest.out rest.kept
                    ∙ ap (λ t. first sent buffer ++ t) rest.parts
                    ∙ first-beyond sent buffer;
                written = rest.written ∙ append_assoc client.written (first sent buffer) rest.out;
                whole = rest.whole;
              })
      ]
    ]

-- `send_all` sends the buffer from its start, in order and nothing else, however the system cuts it:
-- it returns true exactly when all of it has been taken, and otherwise what it sent is the buffer up
-- to the bytes that the system did not take.
pub send_all-IsSent :
    (client : Client) (buffer : Text)
    → IsSent client (send_all client buffer).1 (send_all client buffer).0 buffer
unfolding send_all
send_all-IsSent client buffer = send_loop-IsSent (length buffer) client buffer (omega arith)

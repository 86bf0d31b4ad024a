-- ===== src/OutputUdp/Batches.antt =====
-- src/output_udp.c: the packets go out in order, seven to a datagram.
use two_stream_recovery.Base.{
  Bool-cases, inr, inl, ◌≤◌, ◌+◌, true, All-append, ◌⊎◌, append_assoc, sym, length-append, ◌∙◌,
  arith, ap, suc, append-nil, [], ◌<◌, ◌++◌, false, length, ◌∷◌, ◌≡◌, List, All, ℕ,
}
use two_stream_recovery.Ts.{Packet}
use two_stream_recovery.Engine.State.{ok, error}
use two_stream_recovery.OutputUdp.{
  OutputUdp, packets_per_datagram, sent_whole, flush, send_ts_packet,
}

-- Every datagram that was sent holds seven packets, and fewer than seven are waiting.
pub record IsBatched (o : OutputUdp) : Type 0 where
  pub whole : All (λ d. length d ≡ packets_per_datagram) o.datagrams
  pub room : length o.pending < packets_per_datagram

abbrev pub concat : List (List Packet) → List Packet
concat [] = []
concat (x ∷ xs) = x ++ concat xs

-- What was taken, in order: first the packets of the datagrams, then those that wait.
abbrev pub taken : OutputUdp → List Packet
taken o = concat o.datagrams ++ o.pending

concat_snoc : (xs : List (List Packet)) (d : List Packet) → concat (xs ++ (d ∷ [])) ≡ concat xs ++ d
concat_snoc [] d = append-nil d
concat_snoc (x ∷ xs) d = ap (λ r. x ++ r) (concat_snoc xs d) ∙ sym (append_assoc x (concat xs) d)

length-snoc : (xs : List Packet) (p : Packet) → length (xs ++ (p ∷ [])) ≡ suc (length xs)
length-snoc xs p = ground (arith, length-append xs (p ∷ []))

-- The three things that a packet does to fewer than seven that wait.
send-waiting :
    (o : OutputUdp) (p : Packet)
    → length o.pending < 6
    → send_ts_packet o p ≡ (ok, record o { pending = o.pending ++ (p ∷ []) })
unfolding send_ts_packet
send-waiting o p h = ground (arith, length-snoc o.pending p)

abbrev completed : OutputUdp → Packet → OutputUdp
completed o p = record o { calls = o.calls + 1; pending = o.pending ++ (p ∷ []) }

send-sent :
    (o : OutputUdp) (p : Packet)
    → length o.pending ≡ 6
    → sent_whole (o.sends o.calls) ≡ true
    → send_ts_packet o p ≡ (
      ok,
      record o {
        calls = o.calls + 1;
        pending = [];
        datagrams = o.datagrams ++ ((o.pending ++ (p ∷ [])) ∷ []);
      },
    )
unfolding send_ts_packet flush
send-sent o p h s = ground (arith, length-snoc o.pending p)

send-failed :
    (o : OutputUdp) (p : Packet)
    → length o.pending ≡ 6
    → sent_whole (o.sends o.calls) ≡ false
    → send_ts_packet o p ≡ (error, completed o p)
unfolding send_ts_packet flush
send-failed o p h s = ground (arith, length-snoc o.pending p)

send-full : (o : OutputUdp) (p : Packet) → 7 ≤ length o.pending → send_ts_packet o p ≡ (error, o)
unfolding send_ts_packet
send-full o p h = ground arith

sent-IsBatched :
    (o : OutputUdp) (p : Packet) (n : ℕ)
    → IsBatched o
    → length o.pending ≡ 6
    → IsBatched (record o {
      calls = n;
      pending = [];
      datagrams = o.datagrams ++ ((o.pending ++ (p ∷ [])) ∷ []);
    })
sent-IsBatched o p n v h = record {
  whole =
      All-append (λ d. length d ≡ packets_per_datagram) o.datagrams ((o.pending ++ (p ∷ [])) ∷ [])
        v.whole (length-snoc o.pending p ∙ ap suc h, tt);
  room = omega arith;
}

room-cases : (n : ℕ) → n < 7 → (n < 6) ⊎ (n ≡ 6)
room-cases n h = ground arith

-- A packet that is taken leaves the batches whole and stands behind all packets taken before.
pub send_ts_packet-IsBatched :
    (o : OutputUdp) (p : Packet)
    → IsBatched o
    → (send_ts_packet o p).0 ≡ ok
    → IsBatched (send_ts_packet o p).1 × (taken (send_ts_packet o p).1 ≡ taken o ++ (p ∷ []))
send_ts_packet-IsBatched o p v h = elim (room-cases (length o.pending) v.room) [
  | inl few ↦ rw (send-waiting o p few) (
    record { whole = v.whole; room = ground (arith, length-snoc o.pending p) },
    sym (append_assoc (concat o.datagrams) o.pending (p ∷ [])),
  )
  | inr six ↦ elim (Bool-cases (sent_whole (o.sends o.calls))) [
    | inl sent ↦ rw (send-sent o p six sent) (
      sent-IsBatched o p (o.calls + 1) v six,
      append-nil _
          ∙ concat_snoc o.datagrams (o.pending ++ (p ∷ []))
          ∙ sym (append_assoc (concat o.datagrams) o.pending (p ∷ [])),
    )
    | inr lost ↦ cc (rw (send-failed o p six lost) at h)
  ]
]

-- A packet is refused only where six wait and the network does not take the whole datagram that it
-- completes; from then on the full buffer refuses every packet and stays as it is.
pub send_ts_packet_refused :
    (o : OutputUdp) (p q : Packet)
    → IsBatched o
    → (send_ts_packet o p).0 ≡ error
    → (sent_whole (o.sends o.calls) ≡ false)
      × (length o.pending ≡ 6)
      × (send_ts_packet (send_ts_packet o p).1 q ≡ (error, (send_ts_packet o p).1))
send_ts_packet_refused o p q v h = elim (room-cases (length o.pending) v.room) [
  | inl few ↦ cc (rw (send-waiting o p few) at h)
  | inr six ↦ elim (Bool-cases (sent_whole (o.sends o.calls))) [
    | inl sent ↦ cc (rw (send-sent o p six sent) at h)
    | inr lost ↦
        rw (send-failed o p six lost)
          (lost, six, send-full (completed o p) q (ground (arith, length-snoc o.pending p)))
  ]
]

-- ===== src/Engine/Recovery/Insert.antt =====
-- The loops of src/recovery_engine.c that output what was recovered, after the rehearsal on a copy
-- of the output states.
use two_stream_recovery.Engine.State.{error, Engine, PacketRecord, OutputPidState, ok}
use two_stream_recovery.Base.{
  ◌+◌, add64, length, inr, Bool-cases, inl, [], arith, append_assoc, append-nil, sym, ap, true, ◌∙◌,
  ◌++◌, some, map, ℕ, ◌≡◌, ◌∷◌, List, Bool, refl,
}
use two_stream_recovery.Engine.Recovery.{insert_range, find_record, fit_all, insert_all}
use two_stream_recovery.Ts.{Packet}
use two_stream_recovery.Engine.Match.{fits, observe_states}
use two_stream_recovery.Engine.Output.{output_record, observe_recovered}
use two_stream_recovery.Engine.Output.Clean.{
  Keeps, Keeps-refl, Keeps-trans, Emits, output_record-Emits, observe_recovered-Keeps,
  output_record-Keeps, Status-cases,
}

-- The bytes that go out for a list of records.
abbrev pub packets : List PacketRecord → List Packet
packets cs = map (λ c. c.packet) cs

fit_all-cons :
    (states after : ℕ → OutputPidState) (c : PacketRecord) (cs : List PacketRecord)
    → fit_all states (c ∷ cs) ≡ some after
    → (fits states c ≡ true) × (fit_all (observe_states states c) cs ≡ some after)
unfolding fit_all
fit_all-cons states after c cs h = elim (Bool-cases (fits states c)) [
  | inl e ↦ (e, rw (e, fit_all) at h)
  | inr e ↦ cc (rw (e, fit_all) at h)
]

module _ {D : Type 0} where
  -- The records go out in their order behind the earlier packets, and no error in the output is
  -- counted.
  pub record EmitsAll (e e' : Engine D) (cs : List PacketRecord) : Type 0 where
    pub sent : e'.env.sent ≡ e.env.sent ++ packets cs
    pub errors : e'.stats.output_continuity_errors ≡ e.stats.output_continuity_errors
    pub duplicates : e'.stats.output_duplicate_counters ≡ e.stats.output_duplicate_counters
    pub kept : Keeps e e'

  emitted_step :
      (e : Engine D) (c : PacketRecord) (b : Bool)
      → fits e.output_pid_state c ≡ true
      → (output_record e c).0 ≡ ok
      → Emits e (observe_recovered (output_record e c).1 b) c
  emitted_step e c b f h =
      let e1 = (output_record e c).1 in
      let o = output_record-Emits e c f h in
      let k = observe_recovered-Keeps e1 b in
      record {
        sent = k.1 ∙ o.sent;
        states = k.2 ∙ o.states;
        errors = k.3 ∙ o.errors;
        duplicates = k.4 ∙ o.duplicates;
        kept = Keeps-trans e e1 (observe_recovered e1 b) o.kept k.0;
      }

  cons-EmitsAll :
      (e e1 e2 : Engine D) (c : PacketRecord) (cs : List PacketRecord)
      → Emits e e1 c
      → EmitsAll e1 e2 cs
      → EmitsAll e e2 (c ∷ cs)
  cons-EmitsAll e e1 e2 c cs o r = record {
    sent = r.sent ∙ ap (λ xs. xs ++ packets cs) o.sent ∙ append_assoc e.env.sent _ _;
    errors = r.errors ∙ o.errors;
    duplicates = r.duplicates ∙ o.duplicates;
    kept = Keeps-trans e e1 e2 o.kept r.kept;
  }

  insert_all-cons :
      (counts_as : PacketRecord → Bool) (e : Engine D) (c : PacketRecord) (cs : List PacketRecord)
      → (insert_all counts_as e (c ∷ cs)).0 ≡ ok
      → ((output_record e c).0 ≡ ok)
        × (insert_all counts_as e (c ∷ cs)
            ≡ insert_all counts_as (observe_recovered (output_record e c).1 (counts_as c)) cs)
  unfolding insert_all
  insert_all-cons counts_as e c cs h = elim (Status-cases (output_record e c)) [
    | inl s ↦ (s, ground arith)
    | inr s ↦ ground arith
  ]

  -- Records that passed the rehearsal are output one after the other; the output states end as the
  -- rehearsal ended.
  pub insert_all-EmitsAll :
      (counts_as : PacketRecord → Bool) (e : Engine D) (cs : List PacketRecord)
      (states : ℕ → OutputPidState)
      → fit_all e.output_pid_state cs ≡ some states
      → (insert_all counts_as e cs).0 ≡ ok
      → EmitsAll e (insert_all counts_as e cs).1 cs
        × ((insert_all counts_as e cs).1.output_pid_state ≡ states)
  unfolding insert_all fit_all
  insert_all-EmitsAll counts_as e [] states f h = (
    record {
      sent = sym (append-nil e.env.sent);
      errors = refl;
      duplicates = refl;
      kept = Keeps-refl e;
    },
    ground arith,
  )
  insert_all-EmitsAll counts_as e (c ∷ cs) states f h =
      let e1 = observe_recovered (output_record e c).1 (counts_as c) in
      let first = fit_all-cons e.output_pid_state states c cs f in
      let out = insert_all-cons counts_as e c cs h in
      let o = emitted_step e c (counts_as c) first.0 out.0 in
      let rest =
        insert_all-EmitsAll counts_as e1 cs states (rw o.states first.1)
          (ap (λ p. p.0) (sym out.1) ∙ h) in
      rw out.1 (cons-EmitsAll e e1 (insert_all counts_as e1 cs).1 c cs o rest.0, rest.1)

module _ {D : Type 0} where
  -- The records that stand in the secondary history from an index on.
  pub data Held (e : Engine D) (first : ℕ) : ℕ → List PacketRecord → Type 0 where
    none_left : (i : ℕ) → Held e first i []
    one_more :
        (i : ℕ) (c : PacketRecord) (cs : List PacketRecord)
        → find_record (e.history 1) (add64 first i) ≡ some c
        → Held e first (i + 1) cs
        → Held e first i (c ∷ cs)

  -- Where the records are there, the loop that looks each one up once more does what the loop over
  -- their list does: the history stays the same while it runs.
  pub insert_range-eq :
      (counts_as : PacketRecord → Bool) (e0 e : Engine D) (first i : ℕ) (cs : List PacketRecord)
      → e.history ≡ e0.history
      → Held e0 first i cs
      → insert_range counts_as (length cs) e first i ≡ insert_all counts_as e cs
  unfolding insert_range insert_all
  insert_range-eq counts_as e0 e first i [] same held = refl
  insert_range-eq counts_as e0 e first i (c ∷ cs) same (one_more _ _ _ found held) =
      let e1 = (output_record e c).1 in
      let e2 = observe_recovered e1 (counts_as c) in
      let there : find_record (e.history 1) (add64 first i) ≡ some c =
        ap (λ hs. find_record (hs 1) (add64 first i)) same ∙ found in
      let same' : e2.history ≡ e0.history =
        (observe_recovered-Keeps e1 (counts_as c)).0.history
        ∙ (output_record-Keeps e c).history
        ∙ same in
      let rest = insert_range-eq counts_as e0 e2 first (i + 1) cs same' held in
      rw (there, insert_range)
        (ap (λ p. elim (output_record e c).0 [ ok ↦ p | error ↦ (error, e1) ]) rest)

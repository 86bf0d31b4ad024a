-- ===== src/Engine/Outage/Order.antt =====
-- src/recovery_engine.c, `discard_secondary_records_through`: what it takes off the queue.
use two_stream_recovery.Base.Step.{some-injective}
use two_stream_recovery.Base.{
  Bool-cases, inr, ◌∙◌, ap, inl, refl, tail, Option-cases, some, length, none, arith, sym, [], ltb,
  zero, suc, if◌then◌else◌, ◌∷◌, ◌≡◌, ◌≤◌, List, ℕ,
}
use Prim.Native.Nat.{zero}
use two_stream_recovery.Engine.State.{Engine, PacketRecord, DelayQueue}
use two_stream_recovery.Engine.Queue.{front, pop}
use two_stream_recovery.Engine.Queue.Refine.{
  IsValid, contents, length-contents, list_front, pop-IsValid, front-pop_refines,
}
use two_stream_recovery.Engine.Outage.{discard_through, pop_secondary}

-- The records from the first one on whose index is above the limit.
abbrev pub drop_through : ℕ → List PacketRecord → List PacketRecord
drop_through limit [] = []
drop_through limit (x ∷ xs) = if ltb limit x.stream_index then x ∷ xs else drop_through limit xs

drop_through_front :
    (limit : ℕ) (xs : List PacketRecord) (x : PacketRecord)
    → list_front xs ≡ some x
    → drop_through limit xs
      ≡ (if ltb limit x.stream_index then xs else drop_through limit (tail xs))
drop_through_front limit [] x h = cc
drop_through_front limit (y ∷ xs) x h =
    ap (λ z. if ltb limit z.stream_index then y ∷ xs else drop_through limit xs) (some-injective h)

drop_through-none :
    (limit : ℕ) (xs : List PacketRecord) → list_front xs ≡ none → drop_through limit xs ≡ xs
drop_through-none limit [] h = refl
drop_through-none limit (y ∷ xs) h = cc

drop_through_empty :
    (limit : ℕ) (xs : List PacketRecord) → length xs ≡ 0 → drop_through limit xs ≡ xs
drop_through_empty limit [] h = refl
drop_through_empty limit (y ∷ xs) h = absurd (omega arith)

pop_count : (q : DelayQueue) (n : ℕ) → q.count ≤ suc n → (pop q).count ≤ n
unfolding pop
pop_count q n h = ground arith

module _ {D : Type 0} where
  -- The loop takes off the queue exactly the records before the first one whose index is above the
  -- limit, however far down the queue that is; all else in the engine stays.
  pub discard_through_refines :
      (rounds : ℕ) (e : Engine D) (limit : ℕ)
      → IsValid e.secondary_queue
      → e.secondary_queue.count ≤ rounds
      → IsValid (discard_through rounds e limit).secondary_queue
        × (contents (discard_through rounds e limit).secondary_queue
            ≡ drop_through limit (contents e.secondary_queue))
        × (record (discard_through rounds e limit) { secondary_queue = e.secondary_queue } ≡ e)
  unfolding discard_through pop_secondary
  discard_through_refines zero e limit v h = (
    v,
    sym (
        drop_through_empty limit (contents e.secondary_queue)
          (omega (arith, length-contents e.secondary_queue))),
    refl,
  )
  discard_through_refines (suc n) e limit v h =
      let q = e.secondary_queue in
      let views = front-pop_refines q v in
      elim (Option-cases (front q)) [
        | inl empty ↦
            rw (empty, discard_through)
              (v, sym (drop_through-none limit (contents q) (sym views.0 ∙ empty)), refl)
        | inr (x, first) ↦
            let step = drop_through_front limit (contents q) x (sym views.0 ∙ first) in
            let rest =
              discard_through_refines n (pop_secondary e) limit (pop-IsValid q v)
                (pop_count q n h) in
            elim (Bool-cases (ltb limit x.stream_index)) [
              | inl beyond ↦
                  rw (first, beyond, discard_through) (v, sym (step ∙ (rw beyond refl)), refl)
              | inr within ↦
                  rw (first, within, discard_through)
                    (
                      rest.0,
                      rest.1 ∙ ap (drop_through limit) views.1 ∙ sym (step ∙ (rw within refl)),
                      ap {A = Engine D} (λ x. record x { secondary_queue = q }) rest.2,
                    )
            ]
      ]

-- ===== src/Base/Ring.antt =====
-- The cells of a ring: `n` of them from an index on, going round at the capacity.
use native.Mathlib.Nat.{mod-add-mod, mod-eq_of_lt, mod-eq-sub-mod, add-zero}
use native.Mathlib.Decide.{dec_lt}
use mathlib.Core.Path.{ap₂}
use two_stream_recovery.Base.{
  ℕ, zero, suc, ◌+◌, ◌-◌, ◌%◌, ◌<◌, ◌≡◌, ◌≢◌, refl, ap, ◌∙◌, arith, update, update_self, update-ne,
  List, [], ◌∷◌, ◌++◌, length, some, get_elem?,
}

-- Fewer steps than the capacity do not come back to the start.
turn-ne : (size s k : ℕ) → s < size → suc k < size → (s + suc k) % size ≢ s
turn-ne size s k hs hk = elim (dec_lt (s + suc k) size) [
  | yes p ↦ omega (arith, mod-eq_of_lt p)
  | no p ↦ omega (
    arith,
    mod-eq-sub-mod {n = s + suc k} {m = size} (omega arith),
    mod-eq_of_lt {n = s + suc k - size} {m = size} (omega arith),
  )
]

module _ {ℓ} {A : Type ℓ} where
  module _ (cells : ℕ → A) (size : ℕ) where
    abbrev pub window : ℕ → ℕ → List A
    window s zero = []
    window s (suc n) = cells s ∷ window ((s + 1) % size) n

    pub length-window : (s n : ℕ) → length (window s n) ≡ n
    length-window s zero = refl
    length-window s (suc n) = ap suc (length-window ((s + 1) % size) n)

    -- The code tests the count against 0, `window` matches on it.
    pub window_of_ne_zero :
        (s n : ℕ) → n ≢ 0 → window s n ≡ cells s ∷ window ((s + 1) % size) (n - 1)
    window_of_ne_zero s zero h = absurd (h refl)
    window_of_ne_zero s (suc n) h = ap (λ k. window s (suc k)) (omega arith)

    pub get_elem?-window :
        (k s n : ℕ) → s < size → k < n → get_elem? (window s n) k ≡ some (cells ((s + k) % size))
    get_elem?-window k s zero hs hk = absurd (omega arith)
    get_elem?-window zero s (suc n) hs hk = rw (add-zero, mod-eq_of_lt hs)
    get_elem?-window (suc k) s (suc n) hs hk =
        get_elem?-window k ((s + 1) % size) n (omega arith) (omega arith)
        ∙ ap (λ j. some (cells j)) turn
      where
        turn : ((s + 1) % size + k) % size ≡ (s + suc k) % size
        turn = rw mod-add-mod (ap (λ j. j % size) (omega arith))

  -- A write behind the window makes it longer by the value written.
  pub window-update :
      (cells : ℕ → A) (size : ℕ) (a : A) (n s i : ℕ)
      → s < size
      → n < size
      → i ≡ (s + n) % size
      → window (update cells i a) size s (suc n) ≡ window cells size s n ++ (a ∷ [])
  window-update cells size a zero s i hs hn e =
      rw (e, add-zero, mod-eq_of_lt hs) (ap (λ x. x ∷ []) (update_self cells s a))
  window-update cells size a (suc n) s i hs hn e =
      ap₂ ◌∷◌ (update-ne cells i s a (rw e (turn-ne size s n hs hn)))
        (window-update cells size a n ((s + 1) % size) i (omega arith) (omega arith) (e ∙ turn))
    where
      turn : (s + suc n) % size ≡ ((s + 1) % size + n) % size
      turn = rw mod-add-mod (ap (λ k. k % size) (omega arith))

  -- Overwriting the oldest cell of a full ring moves the window on by one.
  pub window-overwrite :
      (cells : ℕ → A) (size : ℕ) (a : A) (s : ℕ)
      → s < size
      → window (update cells s a) size ((s + 1) % size) size
        ≡ window cells size ((s + 1) % size) (size - 1) ++ (a ∷ [])
  window-overwrite cells size a s hs =
      ap (window (update cells s a) size ((s + 1) % size)) whole
      ∙ window-update cells size a (size - 1) ((s + 1) % size) s (omega arith) (omega arith) back
    where
      whole : size ≡ suc (size - 1)
      whole = omega arith

      back : s ≡ ((s + 1) % size + (size - 1)) % size
      back = rw mod-add-mod (grind arith)

-- ===== src/Threads.antt =====
-- Families `ℕ → A` indexed by thread, for the C++ library: update at one index and the weight of
-- the first `n` of them.
use tpool.Base.{
  ==_iff, Bool-cases, arith, if◌then◌else◌, inl, inr, ltb, refl, subst, suc, sym, zero, ℕ, ◌+◌, ◌<◌,
  ◌==◌, ◌≡◌, ◌≤◌,
}
use tpool.Pattern.Syntax.{among}

abbrev pub update {ℓ} : {A : Type ℓ} (threads : ℕ → A) (k : ℕ) (new : A) → ℕ → A
update threads k new j = if j == k then new else threads j

module _ {ℓ κ} {A : Type ℓ} where
  -- What holds of the new value and of all old ones holds of the new family.
  pub update-all :
      (P : A → Type κ) {f : ℕ → A} (i : ℕ) {a : A}
      → P a
      → ((j : ℕ) → P (f j))
      → (j : ℕ) → P (update f i a j)
  update-all P {f = f} i {a = a} new old j = elim (Bool-cases (j == i)) [
    | inl e ↦ subst (λ b. P (if b then a else f j)) (sym e) new
    | inr e ↦ subst (λ b. P (if b then a else f j)) (sym e) (old j)
  ]

  -- What the thread that moves keeps, every thread keeps.
  pub update-keeps :
      (P : A → Type κ) (f : ℕ → A) (i : ℕ) (a : A)
      → (P (f i) → P a)
      → (j : ℕ) → P (f j)
      → P (update f i a j)
  update-keeps P f i a kept j h = elim (Bool-cases (j == i)) [
    | inl e ↦
        subst (λ b. P (if b then a else f j)) (sym e)
          (kept (subst (λ k. P (f k)) ((==_iff j i).0 e) h))
    | inr e ↦ subst (λ b. P (if b then a else f j)) (sym e) h
  ]

module _ {ℓ} {A : Type ℓ} where
  pub update-same : (f : ℕ → A) (i : ℕ) (a : A) → update f i a i ≡ a
  update-same f i a = rw ((==_iff i i).1 refl) refl

module _ {ℓ} {A : Type ℓ} (w : A → ℕ) where
  -- What the threads below `n` weigh together.
  unfoldable pub load : ℕ → (ℕ → A) → ℕ
  load zero threads = 0
  load (suc n) threads = w (threads n) + load n threads

  -- The thread that moves is among them or it is not.
  load-update_if :
      (threads : ℕ → A) (k : ℕ) (new : A) (n : ℕ)
      → (if ltb k n then w (threads k) else 0) + load n (update threads k new)
        ≡ (if ltb k n then w new else 0) + load n threads
  unfolding load
  load-update_if threads k new zero = ground arith
  load-update_if threads k new (suc n) = ground (arith, load-update_if threads k new n)

  pub load-update :
      (threads : ℕ → A) (k : ℕ) (new : A) {n : ℕ}
      → k < n
      → w (threads k) + load n (update threads k new) ≡ w new + load n threads
  load-update threads k new {n = n} among =
      let both = load-update_if threads k new n in ground (arith, both)

module _ {ℓ} {A : Type ℓ} (w : A → ℕ) where
  pub load-congr :
      (v : A → ℕ) (n : ℕ) (before after : ℕ → A)
      → ((i : ℕ) → w (before i) ≡ v (after i))
      → load w n before ≡ load v n after
  unfolding load
  load-congr v zero before after h = refl
  load-congr v (suc n) before after h = omega (arith, load-congr v n before after h, h n)

  pub load-zero : (n : ℕ) (threads : ℕ → A) → ((i : ℕ) → w (threads i) ≡ 0) → load w n threads ≡ 0
  unfolding load
  load-zero zero threads h = refl
  load-zero (suc n) threads h = omega (arith, load-zero n threads h, h n)

  pub load-le :
      (v : A → ℕ) (n : ℕ) (threads : ℕ → A)
      → ((a : A) → w a ≤ v a)
      → load w n threads ≤ load v n threads
  unfolding load
  load-le v zero threads h = omega arith
  load-le v (suc n) threads h = omega (arith, load-le v n threads h, h (threads n))

  pub load-add-le :
      (v : A → ℕ) (n : ℕ) (threads : ℕ → A)
      → ((a : A) → w a + v a ≤ 1)
      → load w n threads + load v n threads ≤ n
  unfolding load
  load-add-le v zero threads h = omega arith
  load-add-le v (suc n) threads h = omega (arith, load-add-le v n threads h, h (threads n))

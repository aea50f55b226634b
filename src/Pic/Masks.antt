-- ===== src/Pic/Masks.antt =====
-- What the mask registers hold after enable_irq and disable_irq.
use lime_os.Prelude.{
  ℕ, ◌+◌, ◌-◌, ◌/◌, ◌%◌, ◌^◌, ◌<◌, ◌≡◌, ◌⊎◌, refl, Bool, true, false, List, [], ◌∷◌, ltb, ◌==◌,
  if◌then◌else◌, ==_iff, all_below, all_below_lem, arith, Bool-cases, inl, inr,
}
use lime_os.Pic.{Pic, Out, outb, unmask, mask_bit, enable_irq, disable_irq, master_port, slave_port}

-- Bit `i` of a mask.
abbrev bit : ℕ → ℕ → ℕ
bit m i = (m / 2 ^ i) % 2

unmask_row : ℕ → ℕ → ℕ → Bool
unmask_row m k i = bit (unmask m k) i == (if k == i then 0 else bit m i)

mask_row : ℕ → ℕ → ℕ → Bool
mask_row m k i = bit (mask_bit m k) i == (if k == i then 1 else bit m i)

unmask_table : all_below 256 (λ m. all_below 8 (λ k. all_below 8 (unmask_row m k))) ≡ true
unfolding all_below unmask_row unmask
unmask_table = refl

mask_table : all_below 256 (λ m. all_below 8 (λ k. all_below 8 (mask_row m k))) ≡ true
unfolding all_below mask_row mask_bit
mask_table = refl

unmask-bit :
    (m k i : ℕ) → m < 256 → k < 8 → i < 8 → bit (unmask m k) i ≡ (if k == i then 0 else bit m i)
unmask-bit m k i hm hk hi = (==_iff _ _).0 (
    unfold unmask_row in
    all_below_lem 8 (unmask_row m k) i
      (all_below_lem 8 (λ k'. all_below 8 (unmask_row m k')) k
        (all_below_lem 256 (λ m'. all_below 8 (λ k'. all_below 8 (unmask_row m' k'))) m unmask_table
          hm)
        hk)
      hi)

mask_bit-bit :
    (m k i : ℕ) → m < 256 → k < 8 → i < 8 → bit (mask_bit m k) i ≡ (if k == i then 1 else bit m i)
mask_bit-bit m k i hm hk hi = (==_iff _ _).0 (
    unfold mask_row in
    all_below_lem 8 (mask_row m k) i
      (all_below_lem 8 (λ k'. all_below 8 (mask_row m k')) k
        (all_below_lem 256 (λ m'. all_below 8 (λ k'. all_below 8 (mask_row m' k'))) m mask_table hm)
        hk)
      hi)

unmask-lt : (m k : ℕ) → unmask m k < 256
unfolding unmask
unmask-lt m k = omega arith

mask_bit-lt : (m k : ℕ) → mask_bit m k < 256
unfolding mask_bit
mask_bit-lt m k = omega arith

-- Lines of the two controllers differ, and lines of the slave are compared by their bits.
apart :
    (i j : ℕ)
    → (((ltb i 8 ≡ true) × (ltb j 8 ≡ false)) ⊎ ((ltb i 8 ≡ false) × (ltb j 8 ≡ true)))
    → (i == j) ≡ false
apart i j h = ground arith

same_line : (i j : ℕ) → ltb i 8 ≡ false → ltb j 8 ≡ false → (i - 8 == j - 8) ≡ (i == j)
same_line i j hi hj = ground arith

-- 1 if the interrupt line is masked: lines 0 to 7 are the master's, 8 to 15 the slave's.
abbrev pub masked : Pic → ℕ → ℕ
masked p irq = if ltb irq 8 then bit p.master_mask irq else bit p.slave_mask (irq - 8)

pub record AreBytes (p : Pic) : Type 0 where
  pub master_byte : p.master_mask < 256
  pub slave_byte : p.slave_mask < 256

-- What the one byte sent is: the register that holds the line, as it is now.
abbrev pub Sends : Pic → ℕ → List Out → Type 0
Sends p irq out =
    out
    ≡ (if ltb irq 8
        then outb p.master_mask (master_port + 1)
        else outb p.slave_mask (slave_port + 1))
      ∷ []

-- enable_irq unmasks its line, leaves the fifteen others as they were, and sends the register that
-- holds the line to its controller.
pub enable_irq-masked :
    (p : Pic) (irq : ℕ)
    → AreBytes p
    → irq < 16
    → let (q, out) = enable_irq p irq in
      AreBytes q
      × Sends q irq out
      × ((line : ℕ) → line < 16 → masked q line ≡ (if irq == line then 0 else masked p line))
unfolding enable_irq
enable_irq-masked p irq hp hi = elim (Bool-cases (ltb irq 8)) [
  | inl master ↦ rw master (
    record { master_byte = unmask-lt p.master_mask irq; slave_byte = hp.slave_byte },
    refl,
    λ line hl. elim (Bool-cases (ltb line 8)) [
      | inl low ↦
          rw low (unmask-bit p.master_mask irq line hp.master_byte (ground arith) (ground arith))
      | inr high ↦ rw (high, apart irq line (inl (master, high)))
    ],
  )
  | inr slave ↦ rw slave (
    record { master_byte = hp.master_byte; slave_byte = unmask-lt p.slave_mask (irq - 8) },
    refl,
    λ line hl. elim (Bool-cases (ltb line 8)) [
      | inl low ↦ rw (low, apart irq line (inr (slave, low)))
      | inr high ↦
          rw (high, ← same_line irq line slave high)
            (unmask-bit p.slave_mask (irq - 8) (line - 8) hp.slave_byte (omega arith) (omega arith))
    ],
  )
]

-- disable_irq masks its line, leaves the fifteen others as they were, and sends the register that
-- holds the line to its controller.
pub disable_irq-masked :
    (p : Pic) (irq : ℕ)
    → AreBytes p
    → irq < 16
    → let (q, out) = disable_irq p irq in
      AreBytes q
      × Sends q irq out
      × ((line : ℕ) → line < 16 → masked q line ≡ (if irq == line then 1 else masked p line))
unfolding disable_irq
disable_irq-masked p irq hp hi = elim (Bool-cases (ltb irq 8)) [
  | inl master ↦ rw master (
    record { master_byte = mask_bit-lt p.master_mask irq; slave_byte = hp.slave_byte },
    refl,
    λ line hl. elim (Bool-cases (ltb line 8)) [
      | inl low ↦
          rw low (mask_bit-bit p.master_mask irq line hp.master_byte (ground arith) (ground arith))
      | inr high ↦ rw (high, apart irq line (inl (master, high)))
    ],
  )
  | inr slave ↦ rw slave (
    record { master_byte = hp.master_byte; slave_byte = mask_bit-lt p.slave_mask (irq - 8) },
    refl,
    λ line hl. elim (Bool-cases (ltb line 8)) [
      | inl low ↦ rw (low, apart irq line (inr (slave, low)))
      | inr high ↦
          rw (high, ← same_line irq line slave high)
            (mask_bit-bit p.slave_mask (irq - 8) (line - 8) hp.slave_byte (omega arith)
              (omega arith))
    ],
  )
]

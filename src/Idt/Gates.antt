-- ===== src/Idt/Gates.antt =====
-- The table that init_idt of student-distrib/idt.c leaves, as the processor reads it.
use lime_os.Prelude.{
  ℕ, ◌+◌, ◌*◌, ◌<◌, ◌≡◌, ◌∙◌, ap, ltb, ◌==◌, if◌then◌else◌, update, for_range_inv, arith,
}
use lime_os.Idt.{
  Handler, undefined_interrupt, de, db, nmi, bp, overflow, br, ud, nm, df, cso, ts, np, ss, gp, pf,
  resr, mf, ac, mc, xf, sys_handler, k_handler, r_handler, p_handler, Gate, init_gate, set_entry,
  init_gates, set_exceptions, init_idt,
}

-- Where the processor jumps, and the byte with the gate's type, its level and its present bit.
abbrev pub offset : Gate → ℕ
offset g = g.offset_31_16 * 65536 + g.offset_15_00

abbrev pub access : Gate → ℕ
access g =
    g.reserved3
    + 2 * g.reserved2
    + 4 * g.reserved1
    + 8 * g.size
    + 16 * g.reserved0
    + 32 * g.dpl
    + 128 * g.present

-- The handler of a vector.
unfoldable pub handler_of : ℕ → Handler
handler_of n =
    if n == 0
    then de
    else if n == 1
    then db
    else if n == 2
    then nmi
    else if n == 3
    then bp
    else if n == 4
    then overflow
    else if n == 5
    then br
    else if n == 6
    then ud
    else if n == 7
    then nm
    else if n == 8
    then df
    else if n == 9
    then cso
    else if n == 10
    then ts
    else if n == 11
    then np
    else if n == 12
    then ss
    else if n == 13
    then gp
    else if n == 14
    then pf
    else if n == 15
    then resr
    else if n == 16
    then mf
    else if n == 17
    then ac
    else if n == 18
    then mc
    else if n == 19
    then xf
    else if n == 0x20
    then p_handler
    else if n == 0x21
    then k_handler
    else if n == 0x28
    then r_handler
    else if n == 0x80
    then sys_handler
    else undefined_interrupt

-- What init_idt keeps of a gate when it sets its handler.
abbrev rights : Gate → ℕ × ℕ
rights g = (g.seg_selector, access g)

set_entry-rights : (i h : ℕ) (t : ℕ → Gate) (n : ℕ) → rights (set_entry i h t n) ≡ rights (t n)
unfolding set_entry
set_entry-rights i h t n = ground arith

set_entry-offset :
    (i h : ℕ) (t : ℕ → Gate) (n : ℕ)
    → h < 4294967296
    → offset (set_entry i h t n) ≡ (if i == n then h else offset (t n))
unfolding set_entry
set_entry-offset i h t n small = ground arith

init_gate-rights :
    (n h : ℕ) (g : Gate) → rights (init_gate n h g) ≡ (0x10, if n == 0x80 then 0xEF else 0x8E)
init_gate-rights n h g = ground arith

init_gate-offset : (n h : ℕ) (g : Gate) → h < 4294967296 → offset (init_gate n h g) ≡ h
init_gate-offset n h g small = ground arith

module _ (address : Handler → ℕ) (small : (h : Handler) → address h < 4294967296)
    (idt : ℕ → Gate) where
  init_gates-gate :
      (n : ℕ)
      → n < 256
      → init_gates address idt n ≡ init_gate n (address undefined_interrupt) (idt n)
  unfolding init_gates
  init_gates-gate n h =
      for_range_inv
        (λ k (t : ℕ → Gate).
          t n ≡ (if ltb n k then init_gate n (address undefined_interrupt) (idt n) else idt n))
        (λ i t. update t i (init_gate i (address undefined_interrupt) (t i))) 0 256
        (λ k t lo hi e. ground (arith, e)) 256 0 idt (omega arith) (omega arith) (ground arith)
      ∙ (ground arith)

  init_idt-rights :
      (n : ℕ) → n < 256 → rights (init_idt address idt n) ≡ (0x10, if n == 0x80 then 0xEF else 0x8E)
  unfolding init_idt set_exceptions
  init_idt-rights n h =
      simp set_entry-rights
        (ap rights (init_gates-gate n h) ∙ init_gate-rights n (address undefined_interrupt) (idt n))

  init_gates-offset :
      (n : ℕ) → n < 256 → offset (init_gates address idt n) ≡ address undefined_interrupt
  init_gates-offset n h =
      ap offset (init_gates-gate n h)
      ∙ init_gate-offset n (address undefined_interrupt) (idt n) (small undefined_interrupt)

  init_idt-offset : (n : ℕ) → n < 256 → offset (init_idt address idt n) ≡ address (handler_of n)
  unfolding init_idt set_exceptions handler_of
  init_idt-offset n h = simp (set_entry-offset, small, init_gates-offset n h) (ground arith)

  -- When every handler stands below 4 GB, init_idt leaves each of the 256 gates with the address of its
  -- handler (the twenty exceptions, the timer, the keyboard, the clock, the system calls, and
  -- undefined_interrupt everywhere else), the kernel's code segment, and the present bit; only the gate
  -- of the system calls is a trap that level 3 may use.
  pub init_idt-gates :
      (n : ℕ)
      → n < 256
      → (offset (init_idt address idt n) ≡ address (handler_of n))
        × ((init_idt address idt n).seg_selector ≡ 0x10)
        × (access (init_idt address idt n) ≡ (if n == 0x80 then 0xEF else 0x8E))
  init_idt-gates n h = (
    init_idt-offset n h,
    ap (λ r. r.0) (init_idt-rights n h),
    ap (λ r. r.1) (init_idt-rights n h),
  )

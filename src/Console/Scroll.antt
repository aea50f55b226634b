-- ===== src/Console/Scroll.antt =====
-- What scroll_screen does to the screen's memory.
use lime_os.Prelude.{
  ℕ, ◌+◌, ◌-◌, ◌*◌, ◌%◌, ◌<◌, ◌≤◌, ◌≡◌, refl, ap, ◌∙◌, fun_ext, ◌&&◌, ltb, leb, ◌==◌, if◌then◌else◌,
  update, u32, minus_one, for_range, for_range_inv, arith, Bool-cases, inl, inr,
}
use lime_os.Console.{Console, screen_of, scroll_cell, scroll_screen, y_of}

-- The screen at `v` in the middle of the loops, with the cells below the number `k` copied one row up:
-- even offsets hold characters, and row 24 is blank as far as it is copied.
shifted : ℕ → (ℕ → ℕ) → ℕ → ℕ → ℕ
shifted v m k a =
    if leb v a && (a - v) % 2 == 0 && ltb (a - v + 160) (2 * k)
    then m (a + 160)
    else if leb v a && (a - v) % 2 == 0 && leb 3840 (a - v) && ltb (a - v) (2 * k)
    then b' '
    else m a

-- The screen moved up by one row: each character of rows 0 to 23 is the one below it, row 24 is
-- blank, and attributes and all other memory stay.
unfoldable pub scrolled : ℕ → (ℕ → ℕ) → ℕ → ℕ
scrolled v m a =
    if leb v a && (a - v) % 2 == 0 && ltb (a - v) 3840
    then m (a + 160)
    else if leb v a && (a - v) % 2 == 0 && leb 3840 (a - v) && ltb (a - v) 4000
    then b' '
    else m a

shifted-start : (v : ℕ) (m : ℕ → ℕ) → m ≡ shifted v m 80
unfolding shifted
shifted-start v m = fun_ext λ a. ground arith

shifted-end : (v : ℕ) (m : ℕ → ℕ) → shifted v m 2000 ≡ scrolled v m
unfolding shifted scrolled
shifted-end v m = fun_ext λ a. ground arith

shifted-read :
    (v : ℕ) (m : ℕ → ℕ) (k : ℕ) → 80 ≤ k → k < 2000 → shifted v m k (v + k * 2) ≡ m (v + k * 2)
unfolding shifted
shifted-read v m k lo hi = ground arith

shifted-step :
    (v : ℕ) (m : ℕ → ℕ) (k : ℕ)
    → 80 ≤ k
    → k < 1920
    → update (shifted v m k) (v + (k - 80) * 2) (m (v + k * 2)) ≡ shifted v m (k + 1)
unfolding shifted
shifted-step v m k lo hi = fun_ext λ a. ground arith

shifted-step_last :
    (v : ℕ) (m : ℕ → ℕ) (k : ℕ)
    → 1920 ≤ k
    → k < 2000
    → update (update (shifted v m k) (v + (k - 80) * 2) (m (v + k * 2))) (v + k * 2) b' '
      ≡ shifted v m (k + 1)
unfolding shifted
shifted-step_last v m k lo hi = fun_ext λ a. ground arith

-- The loops leave the pointers alone, so a state of theirs is its memory.
abbrev with_mem : Console → (ℕ → ℕ) → Console
with_mem s m = record s { mem = m }

module _ (s : Console) where
  abbrev at_cell : ℕ → Console
  at_cell k = with_mem s (shifted (screen_of s) s.mem k)

  scroll_cell-step :
      (y x : ℕ)
      → 1 ≤ y
      → y < 25
      → x < 80
      → scroll_cell y x (at_cell (80 * y + x)) ≡ at_cell (80 * y + x + 1)
  scroll_cell-step y x ly hy hx =
      let back : 80 * (y - 1) + x ≡ 80 * y + x - 80 = omega arith in
      let read = shifted-read (screen_of s) s.mem (80 * y + x) (omega arith) (omega arith) in
      elim (Bool-cases (y == 24)) [
        | inl last ↦
            rw (last, back, read)
              (ap (with_mem s)
                (shifted-step_last (screen_of s) s.mem (80 * y + x) (ground arith) (omega arith)))
        | inr above ↦
            rw (above, back, read)
              (ap (with_mem s)
                (shifted-step (screen_of s) s.mem (80 * y + x) (omega arith) (ground arith)))
      ]

  scroll_row :
      (y : ℕ) (r : Console)
      → 1 ≤ y
      → y < 25
      → r ≡ at_cell (80 * y)
      → for_range 80 0 (scroll_cell y) r ≡ at_cell (80 * (y + 1))
  scroll_row y r ly hy e =
      let start : 80 * y + 0 ≡ 80 * y = omega arith in
      let end : 80 * (y + 1) ≡ 80 * y + 80 = omega arith in
      rw end (
        for_range_inv (λ x q. q ≡ at_cell (80 * y + x)) (scroll_cell y) 0 80 step 80 0 r
          (omega arith) refl (rw start e))
    where
      step :
          (x : ℕ) (q : Console)
          → 0 ≤ x
          → x < 80
          → q ≡ at_cell (80 * y + x)
          → scroll_cell y x q ≡ at_cell (80 * y + (x + 1))
      step x q lx hx h =
          let assoc : 80 * y + (x + 1) ≡ 80 * y + x + 1 = omega arith in
          rw (h, assoc) (scroll_cell-step y x ly hy hx)

  -- scroll_screen moves the whole screen of the current terminal up by one row, blanks row 24, keeps
  -- every attribute and all memory outside the screen, and moves the cursor up with the text.
  pub scroll_screen_lem : scroll_screen s ≡ record s {
    mem = scrolled (screen_of s) s.mem;
    screen_y = update s.screen_y s.terminal_num (u32 (y_of s + minus_one));
  }
  unfolding scroll_screen
  scroll_screen_lem =
      ap
        (λ (r : Console). record r {
          screen_y = update r.screen_y r.terminal_num (u32 (y_of r + minus_one));
        })
        (for_range_inv (λ y q. q ≡ at_cell (80 * y)) (λ y. for_range 80 0 (scroll_cell y)) 1 25
            (λ y q ly hy h. scroll_row y q ly hy h) 24 1 s (omega arith) refl
            (ap (with_mem s) (shifted-start (screen_of s) s.mem))
          ∙ ap (with_mem s) (shifted-end (screen_of s) s.mem))

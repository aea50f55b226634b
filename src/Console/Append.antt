-- ===== src/Console/Append.antt =====
-- Two writes of a terminal one after the other are one write of both texts: student-distrib/terminal.c.
use lime_os.Prelude.{
  ℕ, zero, suc, ◌+◌, ◌*◌, ◌/◌, ◌%◌, ◌≡◌, refl, sym, ap, ◌∙◌, true, false, ◌&&◌, ◌||◌, Bool, ◌-◌,
  update, u32, minus_one, List, [], ◌∷◌, ◌++◌, ◌==◌, if◌then◌else◌, for_range, for_range_inv,
  Bool-cases, inl, inr, arith,
}
use lime_os.Console.{
  Console, num_rows, num_cols, check_out_of_bound, putc, scroll_cell, scroll_screen, write_char,
  write_chars, update_cursor, x_of, y_of,
}

-- A loop whose rounds all commute with `g` commutes with it.
for_range-commutes :
    {State : Type 0} (g : State → State) (round : ℕ → State → State)
    → ((i : ℕ) (s : State) → round i (g s) ≡ g (round i s))
    → (n k : ℕ) (s : State) → for_range n k round (g s) ≡ g (for_range n k round s)
unfolding for_range
for_range-commutes g round h zero k s = refl
for_range-commutes g round h (suc n) k s =
    ap (for_range n (k + 1) round) (h k s) ∙ for_range-commutes g round h n (k + 1) (round k s)

-- So does a test whose branches do.
if-commutes :
    {State : Type 0} (g : State → State) (b : Bool) {p q p' q' : State}
    → p' ≡ g p
    → q' ≡ g q
    → (if b then p' else q') ≡ g (if b then p else q)
if-commutes g true e e' = e
if-commutes g false e e' = e'

-- The cursor's registers, which writing does not look at.
abbrev with_cursor : ℕ → ℕ → Console → Console
with_cursor a b s = record s { cursor_low = a; cursor_high = b }

module _ (a b : ℕ) where
  scroll_cell-with_cursor :
      (y x : ℕ) (s : Console)
      → scroll_cell y x (with_cursor a b s) ≡ with_cursor a b (scroll_cell y x s)
  scroll_cell-with_cursor y x s = if-commutes (with_cursor a b) (y == num_rows - 1) refl refl

  scroll_screen-with_cursor :
      (s : Console) → scroll_screen (with_cursor a b s) ≡ with_cursor a b (scroll_screen s)
  unfolding scroll_screen
  scroll_screen-with_cursor s =
      ap
        (λ (r : Console). record r {
          screen_y = update r.screen_y r.terminal_num (u32 (y_of r + minus_one));
        })
        (for_range-commutes (with_cursor a b) (λ y. for_range num_cols 0 (scroll_cell y))
          (λ y r.
            for_range-commutes (with_cursor a b) (scroll_cell y) (scroll_cell-with_cursor y)
              num_cols 0 r)
          (num_rows - 1) 1 s)

  putc-with_cursor : (s : Console) (c : ℕ) → putc (with_cursor a b s) c ≡ with_cursor a b (putc s c)
  unfolding putc
  putc-with_cursor s c = if-commutes (with_cursor a b) (c == b'\n' || c == b'\r') refl refl

  scroll_if-with_cursor :
      (test : Bool) (s : Console)
      → (if test then scroll_screen (with_cursor a b s) else with_cursor a b s)
        ≡ with_cursor a b (if test then scroll_screen s else s)
  scroll_if-with_cursor test s =
      if-commutes (with_cursor a b) test (scroll_screen-with_cursor s) refl

  write_char-with_cursor :
      (s : Console) (c : ℕ) → write_char (with_cursor a b s) c ≡ with_cursor a b (write_char s c)
  unfolding write_char check_out_of_bound
  write_char-with_cursor s c =
      ap (λ r. putc (if check_out_of_bound r == 2 then scroll_screen r else r) c)
        (scroll_if-with_cursor (check_out_of_bound s == 1 && c == b'\n') s)
      ∙ ap (λ q. putc q c)
          (scroll_if-with_cursor _
            (if check_out_of_bound s == 1 && c == b'\n' then scroll_screen s else s))
      ∙ putc-with_cursor _ c

  write_chars-with_cursor :
      (s : Console) (cs : List ℕ)
      → write_chars (with_cursor a b s) cs ≡ with_cursor a b (write_chars s cs)
  write_chars-with_cursor s [] = refl
  write_chars-with_cursor s (c ∷ cs) =
      ap (λ r. write_chars r cs) (write_char-with_cursor s c)
      ∙ write_chars-with_cursor (write_char s c) cs

write_chars-append :
    (s : Console) (cs ds : List ℕ) → write_chars s (cs ++ ds) ≡ write_chars (write_chars s cs) ds
write_chars-append s [] ds = refl
write_chars-append s (c ∷ cs) ds = write_chars-append (write_char s c) cs ds

-- The terminal that is current, and that of the running process.
abbrev terminals : Console → ℕ × ℕ
terminals s = (s.terminal_num, s.tty)

terminals_if :
    (b : Bool) (s p q : Console)
    → terminals p ≡ terminals s
    → terminals q ≡ terminals s
    → terminals (if b then p else q) ≡ terminals s
terminals_if true s p q e e' = e
terminals_if false s p q e e' = e'

scroll_screen-terminals : (s : Console) → terminals (scroll_screen s) ≡ terminals s
unfolding scroll_screen
scroll_screen-terminals s =
    for_range_inv (λ _ r. terminals r ≡ terminals s) (λ y. for_range num_cols 0 (scroll_cell y)) 1
      25
      (λ y r lo hi e.
        for_range_inv (λ _ q. terminals q ≡ terminals s) (scroll_cell y) 0 80
          (λ x q lo hi e'. terminals_if (y == num_rows - 1) s _ _ e' e') 80 0 r (omega arith)
          (omega arith) e)
      24 1 s (omega arith) (omega arith) refl

putc-terminals : (s : Console) (c : ℕ) → terminals (putc s c) ≡ terminals s
unfolding putc
putc-terminals s c = terminals_if (c == b'\n' || c == b'\r') s _ _ refl refl

write_char-terminals : (s : Console) (c : ℕ) → terminals (write_char s c) ≡ terminals s
unfolding write_char
write_char-terminals s c =
    putc-terminals (if check_out_of_bound r == 2 then scroll_screen r else r) c
    ∙ terminals_if (check_out_of_bound r == 2) r _ _ (scroll_screen-terminals r) refl
    ∙ terminals_if (check_out_of_bound s == 1 && c == b'\n') s _ _ (scroll_screen-terminals s) refl
  where
    r : Console
    r = if check_out_of_bound s == 1 && c == b'\n' then scroll_screen s else s

write_chars-terminals : (s : Console) (cs : List ℕ) → terminals (write_chars s cs) ≡ terminals s
write_chars-terminals s [] = refl
write_chars-terminals s (c ∷ cs) =
    write_chars-terminals (write_char s c) cs ∙ write_char-terminals s c

-- What `write` does behind its text: terminal `shown` is current again, and the cursor follows.
abbrev pub settle : ℕ → Console → Console
settle shown w = let c = record w { terminal_num = shown } in update_cursor c (x_of c) (y_of c)

pub settle-terminal_num : (shown : ℕ) (w : Console) → (settle shown w).terminal_num ≡ shown
unfolding update_cursor
settle-terminal_num shown w = elim (Bool-cases (shown == w.tty)) [
  | inl e ↦ rw e refl
  | inr e ↦ rw e refl
]

-- A text written on terminal `own` while `shown` is the one on the screen.
abbrev pub written_on : ℕ → ℕ → Console → List ℕ → Console
written_on own shown s text =
    settle shown (write_chars (record s { terminal_num = own; tty = own }) text)

-- The place of the cursor of a terminal.
abbrev position : ℕ → Console → ℕ
position t s = (s.screen_y t * num_cols + s.screen_x t) % 65536

module _ (own shown : ℕ) where
  settle-shown :
      (w : Console)
      → w.tty ≡ own
      → (shown == own) ≡ true
      → settle shown w
        ≡ with_cursor
            (position shown w % 256)
            (position shown w / 256)
            (record w { terminal_num = shown })
  unfolding update_cursor
  settle-shown w its e = let e' : (shown == w.tty) ≡ true = rw its e in rw e' refl

  settle-hidden :
      (w : Console)
      → w.tty ≡ own
      → (shown == own) ≡ false
      → settle shown w ≡ record w { terminal_num = shown }
  unfolding update_cursor
  settle-hidden w its e = let e' : (shown == w.tty) ≡ false = rw its e in rw e' refl

  again : (w : Console) → terminals w ≡ (own, own) → record w { terminal_num = own; tty = own } ≡ w
  again w e = ap (λ t. record w { terminal_num = t.0; tty = t.1 }) (sym e)

  module _ (s : Console) (first second : List ℕ) where
    -- Two texts written one after the other leave the console as one write of both.
    pub written_on-append :
        written_on own shown (written_on own shown s first) second
        ≡ written_on own shown s (first ++ second)
    written_on-append = elim (Bool-cases (shown == own)) [
      | inl e ↦
          ap (λ q. settle shown (write_chars (record q { terminal_num = own; tty = own }) second))
            (settle-shown w its.1 e)
          ∙ ap (λ q. settle shown (write_chars q second))
              (ap (with_cursor (position shown w % 256) (position shown w / 256)) (again w whole))
          ∙ ap (settle shown) (write_chars-with_cursor _ _ w second)
          ∙ settle-shown (with_cursor _ _ w2) its2 e
          ∙ sym (settle-shown w2 its2 e)
          ∙ ap (settle shown) both
      | inr e ↦
          ap (λ q. settle shown (write_chars (record q { terminal_num = own; tty = own }) second))
            (settle-hidden w its.1 e)
          ∙ ap (λ q. settle shown (write_chars q second)) (again w whole)
          ∙ ap (settle shown) both
    ]
      where
        start : Console
        start = record s { terminal_num = own; tty = own }

        w : Console
        w = write_chars start first

        w2 : Console
        w2 = write_chars w second

        whole : terminals w ≡ (own, own)
        whole = write_chars-terminals start first

        its : (w.terminal_num ≡ own) × (w.tty ≡ own)
        its = (ap (λ t. t.0) whole, ap (λ t. t.1) whole)

        its2 : w2.tty ≡ own
        its2 = ap (λ t. t.1) (write_chars-terminals w second) ∙ its.1

        both : w2 ≡ write_chars start (first ++ second)
        both = sym (write_chars-append start first second)

-- ===== src/Console/Bounds.antt =====
-- The cursor of the current terminal stays on the 25 by 80 screen.
use lime_os.Prelude.{
  ℕ, ◌+◌, ◌-◌, ◌*◌, ◌/◌, ◌<◌, ◌≤◌, ◌≡◌, ◌≢◌, u32, minus_one, refl, ap, ◌∙◌, Bool, List, [], ◌∷◌,
  some, ◌==◌, if◌then◌else◌, take, arith, Bool-cases, inl, inr, update_self,
}
use lime_os.Console.{
  Console, x_of, y_of, screen_of, putc, scroll_screen, check_out_of_bound, write_char, write_chars,
  write_rounds, terminal_write, backspace_pressed, update_cursor,
}
use lime_os.Console.Scroll.{scroll_screen_lem}

pub record InBounds (s : Console) : Type 0 where
  pub column : x_of s < 80
  pub row : y_of s < 25

-- The row and column as one number.
abbrev pub position : Console → ℕ
position s = 80 * y_of s + x_of s

-- The terminal on the screen, and the addresses of the three screens.
abbrev pub SamePointers : Console → Console → Type 0
SamePointers s r = (r.terminal_num ≡ s.terminal_num) × (r.video_mem ≡ s.video_mem)

-- What a scroll leaves of the fields that the later steps read.
pub record Scrolls (s r : Console) : Type 0 where
  pub same_x : r.screen_x ≡ s.screen_x
  pub same_terminal : r.terminal_num ≡ s.terminal_num
  pub up : y_of r ≡ u32 (y_of s + minus_one)
  pub same_video : r.video_mem ≡ s.video_mem

pub scroll_screen-Scrolls : (s : Console) → Scrolls s (scroll_screen s)
scroll_screen-Scrolls s = rw scroll_screen_lem (record {
  same_x = refl;
  same_terminal = refl;
  up = update_self s.screen_y s.terminal_num (u32 (y_of s + minus_one));
  same_video = refl;
})

putc-position :
    (s : Console) (c : ℕ)
    → c ≢ b'\n'
    → c ≢ b'\r'
    → InBounds s
    → position s < 1999
    → InBounds (putc s c) × (position (putc s c) ≡ position s + 1)
unfolding putc
putc-position s c hn hr h hp = ground arith

putc-newline :
    (s : Console) → y_of s < 24 → (x_of (putc s b'\n') ≡ 0) × (y_of (putc s b'\n') ≡ y_of s + 1)
unfolding putc
putc-newline s h = ground arith

-- Whether terminal_write moves the screen up before it writes `c`.
abbrev pub needs_scroll : Console → ℕ → Bool
needs_scroll s c = if c == b'\n' then y_of s == 24 else position s == 1999

pub scroll_screen-InBounds : (s : Console) → InBounds s → 1 ≤ y_of s → InBounds (scroll_screen s)
scroll_screen-InBounds s h low = ground (arith, scroll_screen-Scrolls s)

pub write_char-putc :
    (s : Console) (c : ℕ)
    → InBounds s
    → write_char s c ≡ putc (if needs_scroll s c then scroll_screen s else s) c
unfolding write_char check_out_of_bound
write_char-putc s c h = ground (arith, scroll_screen-Scrolls s)

-- Where the cursor stands after a byte: a line feed goes to the start of the next row, any other byte
-- to the next cell, and from the last row, or the last cell, to the start of row 24.
pub next_position : ℕ → ℕ → ℕ
next_position c p =
    if c == b'\n'
    then (if p / 80 == 24 then 1920 else 80 * (p / 80 + 1))
    else if p == 1999
    then 1920
    else p + 1

abbrev pub Advances : Console → ℕ → Console → Type 0
Advances s c r = InBounds r × (position r ≡ next_position c (position s))

putc-newline_Advances :
    (s : Console) (c : ℕ)
    → c ≡ b'\n'
    → InBounds s
    → y_of s < 24
    → (InBounds (putc s c)) × (position (putc s c) ≡ 80 * (y_of s + 1))
putc-newline_Advances s c e h hy = rw e (ground (arith, putc-newline s hy))

pub write_char-Advances :
    (s : Console) (c : ℕ) → c ≢ b'\r' → InBounds s → Advances s c (write_char s c)
unfolding next_position
write_char-Advances s c hr h = rw (write_char-putc s c h) (elim (Bool-cases (needs_scroll s c)) [
  | inl up ↦ rw up (elim (Bool-cases (c == b'\n')) [
    | inl line ↦ ground (
      arith,
      scroll_screen-Scrolls s,
      scroll_screen-InBounds s h (ground arith),
      putc-newline_Advances (scroll_screen s) c,
    )
    | inr other ↦ ground (
      arith,
      scroll_screen-Scrolls s,
      scroll_screen-InBounds s h (ground arith),
      putc-position (scroll_screen s) c,
    )
  ])
  | inr stay ↦ rw stay (elim (Bool-cases (c == b'\n')) [
    | inl line ↦ ground (arith, putc-newline_Advances s c)
    | inr other ↦ ground (arith, putc-position s c)
  ])
])

abbrev pub NoReturn : List ℕ → Type 0
NoReturn [] = Unit
NoReturn (c ∷ cs) = (c ≢ b'\r') × NoReturn cs

abbrev pub positions : List ℕ → ℕ → ℕ
positions [] p = p
positions (c ∷ cs) p = positions cs (next_position c p)

pub write_chars-InBounds :
    (s : Console) (cs : List ℕ)
    → NoReturn cs
    → InBounds s
    → InBounds (write_chars s cs) × (position (write_chars s cs) ≡ positions cs (position s))
write_chars-InBounds s [] hc h = (h, refl)
write_chars-InBounds s (c ∷ cs) hc h =
    let (inside, there) = write_char-Advances s c hc.0 h in
    let (inside', there') = write_chars-InBounds (write_char s c) cs hc.1 inside in
    (inside', there' ∙ ap (positions cs) there)

-- terminal_write of bytes without a carriage return keeps the cursor on the screen, leaves it where
-- each byte in turn moves it to, and returns the number of bytes written.
pub terminal_write-position :
    (s : Console) (buf : List ℕ) (nbytes : ℕ)
    → NoReturn (take (write_rounds nbytes) buf)
    → InBounds s
    → let (r, ret) = terminal_write s (some buf) nbytes in
      InBounds r
      × (position r ≡ positions (take (write_rounds nbytes) buf) (position s))
      × (ret ≡ write_rounds nbytes)
unfolding terminal_write
terminal_write-position s buf nbytes hc h =
    let (inside, there) = write_chars-InBounds s (take (write_rounds nbytes) buf) hc h in
    (inside, there, refl)

-- A carriage return in the last row, anywhere but in its last cell, leaves the cursor on row 25, below
-- the screen: terminal_write scrolls for a line feed only, and putc moves down for both.
pub write_char-return_leaves :
    (s : Console)
    → y_of s ≡ 24
    → x_of s < 79
    → (y_of (write_char s b'\r') ≡ 25) × (¬ InBounds (write_char s b'\r'))
unfolding write_char check_out_of_bound putc
write_char-return_leaves s hy hx =
    let below : y_of (write_char s b'\r') ≡ 25 = ground arith in (below, λ h. omega (arith, h.row))

-- Backspace keeps the cursor on the screen, moves it to the cell before, or nowhere from the first
-- cell, and blanks the cell that it moves to.
pub backspace_pressed-position :
    (s : Console)
    → InBounds s
    → InBounds (backspace_pressed s)
      × (position (backspace_pressed s) ≡ position s - 1)
      × ((backspace_pressed s).mem (screen_of s + (position s - 1) * 2) ≡ b' ')
unfolding backspace_pressed update_cursor
backspace_pressed-position s h = ground arith

putc_pointers : (s : Console) (c : ℕ) → SamePointers s (putc s c)
unfolding putc
putc_pointers s c = ground arith

pub write_char_pointers : (s : Console) (c : ℕ) → InBounds s → SamePointers s (write_char s c)
write_char_pointers s c h = rw (write_char-putc s c h) (elim (Bool-cases (needs_scroll s c)) [
  | inl up ↦ rw up (ground (arith, putc_pointers (scroll_screen s) c, scroll_screen-Scrolls s))
  | inr stay ↦ rw stay (putc_pointers s c)
])

-- A character and then a backspace put the cursor back, and blank the character's cell, wherever the
-- character does not scroll the screen.
pub backspace_pressed-write_char :
    (s : Console) (c : ℕ)
    → c ≢ b'\n'
    → c ≢ b'\r'
    → InBounds s
    → position s < 1999
    → let r = backspace_pressed (write_char s c) in
      (position r ≡ position s) × (r.mem (screen_of s + position s * 2) ≡ b' ')
unfolding next_position
backspace_pressed-write_char s c hn hr h hp =
    let (same, inside, there) = facts in
    let back = backspace_pressed-position (write_char s c) inside in ground arith
  where
    facts :
        (screen_of (write_char s c) ≡ screen_of s)
        × InBounds (write_char s c)
        × (position (write_char s c) ≡ position s + 1)
    facts = ground (arith, write_char-Advances s c hr h, write_char_pointers s c h)

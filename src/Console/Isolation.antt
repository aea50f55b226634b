-- ===== src/Console/Isolation.antt =====
-- Writing on one terminal leaves the other terminals' screens, and all other memory, alone.
use lime_os.Prelude.{
  ℕ, ◌+◌, ◌<◌, ◌≤◌, ◌≡◌, ◌⊎◌, inl, inr, refl, ◌∙◌, List, [], ◌∷◌, Option, none, some, take, Bool,
  true, false, ◌&&◌, ◌==◌, for_range_inv, arith, if◌then◌else◌, Bool-cases,
}
use lime_os.Console.{
  Console, screen_of, check_out_of_bound, backspace_pressed, clear, reset_screen, update_cursor,
  putc, scroll_screen, write_char, write_chars, write_rounds, terminal_write,
}
use lime_os.Console.Scroll.{scrolled, scroll_screen_lem}
use lime_os.Console.Bounds.{
  InBounds, NoReturn, needs_scroll, SamePointers, scroll_screen-Scrolls, scroll_screen-InBounds,
  write_char-putc, write_char-Advances, write_char_pointers,
}

-- The address lies outside the page of the current terminal's screen.
abbrev pub OffScreen : Console → ℕ → Type 0
OffScreen s a = (a < screen_of s) ⊎ (screen_of s + 4096 ≤ a)

putc_frame : (s : Console) (c a : ℕ) → InBounds s → OffScreen s a → (putc s c).mem a ≡ s.mem a
unfolding putc
putc_frame s c a h (inl lo) = ground arith
putc_frame s c a h (inr hi) = ground arith

scroll_frame : (s : Console) (a : ℕ) → OffScreen s a → (scroll_screen s).mem a ≡ s.mem a
unfolding scrolled
scroll_frame s a (inl lo) = rw scroll_screen_lem (ground arith)
scroll_frame s a (inr hi) = rw scroll_screen_lem (ground arith)

write_char_frame :
    (s : Console) (c a : ℕ) → InBounds s → OffScreen s a → (write_char s c).mem a ≡ s.mem a
write_char_frame s c a h off = rw (write_char-putc s c h) (elim (Bool-cases (needs_scroll s c)) [
  | inl up ↦ rw up (
      putc_frame (scroll_screen s) c a (scroll_screen-InBounds s h (ground arith))
        (ground (arith, scroll_screen-Scrolls s))
      ∙ scroll_frame s a off)
  | inr stay ↦ rw stay (putc_frame s c a h off)
])

write_chars_frame :
    (s : Console) (cs : List ℕ) (a : ℕ)
    → NoReturn cs
    → InBounds s
    → OffScreen s a
    → ((write_chars s cs).mem a ≡ s.mem a) × SamePointers s (write_chars s cs)
write_chars_frame s [] a hc h off = (refl, (refl, refl))
write_chars_frame s (c ∷ cs) a hc h off =
    let (inside, there) = write_char-Advances s c hc.0 h in
    let (same, kept) =
      write_chars_frame (write_char s c) cs a hc.1 inside
        (ground (arith, write_char_pointers s c h)) in
    let (num', vid') = write_char_pointers s c h in
    (same ∙ write_char_frame s c a h off, (kept.0 ∙ num', kept.1 ∙ vid'))

-- terminal_write changes memory inside the 4 KB page of its own terminal's screen only, and neither
-- which terminal is current nor where the screens are, if the cursor is on the screen and no carriage
-- return is written.
pub terminal_write_frame :
    (s : Console) (buf : List ℕ) (nbytes a : ℕ)
    → NoReturn (take (write_rounds nbytes) buf)
    → InBounds s
    → OffScreen s a
    → let r = (terminal_write s (some buf) nbytes).0 in (r.mem a ≡ s.mem a) × SamePointers s r
unfolding terminal_write
terminal_write_frame s buf nbytes a hc h off =
    write_chars_frame s (take (write_rounds nbytes) buf) a hc h off

-- No console function but terminal_switch changes which terminal is current.
putc-terminal_num : (s : Console) (c : ℕ) → (putc s c).terminal_num ≡ s.terminal_num
unfolding putc
putc-terminal_num s c = ground arith

write_char-terminal_num : (s : Console) (c : ℕ) → (write_char s c).terminal_num ≡ s.terminal_num
unfolding write_char
write_char-terminal_num s c =
    putc-terminal_num (if check_out_of_bound r == 2 then scroll_screen r else r) c
    ∙ after (check_out_of_bound r == 2) r
    ∙ after (check_out_of_bound s == 1 && c == b'\n') s
  where
    r : Console
    r = if check_out_of_bound s == 1 && c == b'\n' then scroll_screen s else s

    after :
        (b : Bool) (q : Console) → (if b then scroll_screen q else q).terminal_num ≡ q.terminal_num
    after true q = (scroll_screen-Scrolls q).same_terminal
    after false q = refl

write_chars-terminal_num :
    (s : Console) (cs : List ℕ) → (write_chars s cs).terminal_num ≡ s.terminal_num
write_chars-terminal_num s [] = refl
write_chars-terminal_num s (c ∷ cs) =
    write_chars-terminal_num (write_char s c) cs ∙ write_char-terminal_num s c

pub terminal_write-terminal_num :
    (s : Console) (buf : Option (List ℕ)) (nbytes : ℕ)
    → (terminal_write s buf nbytes).0.terminal_num ≡ s.terminal_num
unfolding terminal_write
terminal_write-terminal_num s none nbytes = refl
terminal_write-terminal_num s (some buf) nbytes =
    write_chars-terminal_num s (take (write_rounds nbytes) buf)

pub backspace_pressed-terminal_num :
    (s : Console) → (backspace_pressed s).terminal_num ≡ s.terminal_num
unfolding backspace_pressed update_cursor
backspace_pressed-terminal_num s = ground arith

clear-terminal_num : (s : Console) → (clear s).terminal_num ≡ s.terminal_num
unfolding clear
clear-terminal_num s =
    for_range_inv (λ i q. q.terminal_num ≡ s.terminal_num) _ 0 2000 (λ i q lo hi e. e) 2000 0 s
      (omega arith) refl refl

pub reset_screen-clear-terminal_num :
    (s : Console) → (reset_screen (clear s)).terminal_num ≡ s.terminal_num
unfolding reset_screen update_cursor
reset_screen-clear-terminal_num s = ground (arith, clear-terminal_num s)

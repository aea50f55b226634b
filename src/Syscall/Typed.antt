-- ===== src/Syscall/Typed.antt =====
-- A line typed at the keyboard and read by terminal_read: student-distrib/keyboard.c with
-- student-distrib/terminal.c.
use lime_os.Prelude.{
  ℕ, zero, suc, ◌+◌, ◌<◌, ◌≤◌, ◌≡◌, ◌≢◌, refl, ap, sym, ◌∙◌, List, [], ◌∷◌, ◌++◌, append_assoc,
  some, length, length-append, update_self, ◌==◌, Bool-cases, inl, inr, arith,
}
use lime_os.Keyboard.{tn, keyboard_handler}
use lime_os.Keyboard.Line.{IsReady, prefix, length-prefix, line_on, line_length}
use lime_os.Keyboard.Deliver.{keyboard_handler-Delivers, keyboard_handler-bytes}
use lime_os.Process.{Kernel, get_tty}
use lime_os.Syscall.{take_line, finish_terminal_read}

prefix_next : (f : ℕ → ℕ) (n : ℕ) → prefix f (n + 1) ≡ prefix f n ++ f n ∷ []
prefix_next f n = let e : n + 1 ≡ suc n = omega arith in ap (prefix f) e

-- From `i` on, take_line gives what stands up to the first newline, at `m`.
take_line-prefix :
    (n i m : ℕ) (buf : ℕ → ℕ)
    → i ≤ m
    → m < i + n
    → buf m ≡ b'\n'
    → ((j : ℕ) → j < m → buf j ≢ b'\n')
    → (l : List ℕ) × (take_line n i buf ≡ some l) × (prefix buf i ++ l ≡ prefix buf (m + 1))
unfolding take_line
take_line-prefix zero i m buf lo hi at before = absurd (omega arith)
take_line-prefix (suc n) i m buf lo hi at before = elim (Bool-cases (buf i == b'\n')) [
  | inl newline ↦
      let here : i ≡ m = ground (arith, before i) in
      rw newline (buf i ∷ [], refl, sym (prefix_next buf i) ∙ ap (λ x. prefix buf (x + 1)) here)
  | inr other ↦
      let (l, e, p) = take_line-prefix n (i + 1) m buf (ground arith) (omega arith) at before in
      rw (other, e)
        (
          buf i ∷ l,
          refl,
          sym (append_assoc (prefix buf i) (buf i ∷ []) l)
              ∙ ap (λ q. q ++ l) (sym (prefix_next buf i))
              ∙ p,
        )
]

-- A line delivered to a terminal, with the newline at its end and nowhere else, is what take_line gives.
take_line-delivered :
    (buf : ℕ → ℕ) (m : ℕ) (line : List ℕ)
    → m < 128
    → prefix buf (m + 1) ≡ line
    → buf m ≡ b'\n'
    → ((j : ℕ) → j < m → buf j ≢ b'\n')
    → take_line 128 0 buf ≡ some line
take_line-delivered buf m line hm e at before =
    let (l, found, p) = take_line-prefix 128 0 m buf (omega arith) (omega arith) at before in
    found ∙ ap some (p ∙ e)

-- The line that the user has typed on the terminal that is shown is what a process of that terminal reads:
-- when Enter comes and the terminal's command buffer is free, terminal_read ends its wait, and returns the
-- characters of the line and the newline, and their number. No character typed is a newline.
pub keyboard_handler-terminal_read :
    (k : Kernel)
    → IsReady k.keyboard
    → k.keyboard.command_buf (tn k.keyboard) 0 ≡ 0
    → ((j : ℕ) → j < line_length k.keyboard (tn k.keyboard) → k.keyboard.char_buf j ≢ b'\n')
    → get_tty k ≡ tn k.keyboard
    → let line = line_on k.keyboard (tn k.keyboard) in
      finish_terminal_read (record k { keyboard = (keyboard_handler k.keyboard 0x1C).0 })
      ≡ some (length line + 1, line ++ b'\n' ∷ [])
unfolding finish_terminal_read get_tty
keyboard_handler-terminal_read k ready free typed own =
    let n : ℕ = line_length k.keyboard (tn k.keyboard) in
    let delivered = keyboard_handler-Delivers k.keyboard ready free typed in
    let byte = keyboard_handler-bytes k.keyboard ready free typed in
    let long : length (line_on k.keyboard (tn k.keyboard) ++ b'\n' ∷ []) ≡ n + 1 =
      length-append (line_on k.keyboard (tn k.keyboard)) (b'\n' ∷ [])
      ∙ ap (λ x. x + 1) (length-prefix k.keyboard.char_buf n) in
    let taken =
      take_line-delivered ((keyboard_handler k.keyboard 0x1C).0.command_buf (tn k.keyboard)) n
        (line_on k.keyboard (tn k.keyboard) ++ b'\n' ∷ [])
        (omega (arith, ready.fits (tn k.keyboard))) (ap (prefix _) (sym long) ∙ delivered.0.0)
        (byte n (omega arith) ∙ update_self k.keyboard.char_buf n b'\n')
        (λ j hj. ground (arith, byte j, typed j)) in
    rw (own, delivered.0.1, taken)
      (ap (λ n. some (n, line_on k.keyboard (tn k.keyboard) ++ b'\n' ∷ []))
        (long ∙ ap (λ x. x + 1) (sym (length-prefix k.keyboard.char_buf n))))

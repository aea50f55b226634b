-- ===== src/Keyboard/Deliver.antt =====
-- Enter hands the typed line to the reader of the terminal.
use lime_os.Prelude.{
  ℕ, zero, suc, ◌+◌, ◌<◌, ◌≤◌, ◌≡◌, ◌≢◌, refl, ap, ap₂, ◌∙◌, true, ◌&&◌, List, [], ◌∷◌, ◌++◌, leb,
  ◌==◌, length-append, if◌then◌else◌, update, update_self, length, arith, Bool-cases, inl, inr,
}
use lime_os.Keyboard.{
  Keyboard, tn, put_char, copy_char, copy_line, set_t_enter_flag, press_enter,
  keyboard_output_dealer, keyboard_handler, echo, end_line,
}
use lime_os.Keyboard.Line.{prefix, prefix-put, length-prefix, line_length, line_on, IsReady}

-- The loop from `i` on, where the first newline stands at `m`.
record Copies (i m : ℕ) (k r : Keyboard) : Type 0 where
  bytes :
      (j : ℕ)
      → r.command_buf (tn k) j
        ≡ (if leb i j && leb j m then k.char_buf j else k.command_buf (tn k) j)
  flagged : r.t_enter_flag (tn k) ≡ 1
  others : (t : ℕ) → t ≢ tn k → r.command_buf t ≡ k.command_buf t

copy_line-Copies :
    (n i m : ℕ) (k : Keyboard)
    → i ≤ m
    → m < i + n
    → k.char_buf m ≡ b'\n'
    → ((j : ℕ) → j < m → k.char_buf j ≢ b'\n')
    → Copies i m k (copy_line n i k)
unfolding copy_line set_t_enter_flag
copy_line-Copies zero i m k lo hi at before = absurd (omega arith)
copy_line-Copies (suc n) i m k lo hi at before = elim (Bool-cases (k.char_buf i == b'\n')) [
  | inl newline ↦
      let e : i ≡ m = ground (arith, before i) in
      rw newline (record {
        bytes = λ j. ground arith;
        flagged = update_self k.t_enter_flag (tn k) 1;
        others = λ t ne. ground arith;
      })
  | inr other ↦
      let ih =
        copy_line-Copies n (i + 1) m (copy_char i k) (ground arith) (omega arith) at before in
      rw other (record {
        bytes = λ j. ground (arith, ih.bytes j);
        flagged = ih.flagged;
        others = λ t ne. ground (arith, ih.others t ne);
      })
]

Copies-byte :
    (m : ℕ) (k r : Keyboard)
    → Copies 0 m k r
    → (j : ℕ) → j < m + 1
    → r.command_buf (tn k) j ≡ k.char_buf j
Copies-byte m k r c j hj = ground (arith, c.bytes j)

prefix-ext : (f g : ℕ → ℕ) (n : ℕ) → ((j : ℕ) → j < n → f j ≡ g j) → prefix f n ≡ prefix g n
prefix-ext f g zero h = refl
prefix-ext f g (suc n) h =
    ap₂ (λ l c. l ++ c ∷ []) (prefix-ext f g n (λ j hj. h j (omega arith))) (h n (omega arith))

-- What the reader of terminal `t` sees of a delivered line.
abbrev pub Delivers : Keyboard → ℕ → List ℕ → Type 0
Delivers r t line = (prefix (r.command_buf t) (length line) ≡ line) × (r.t_enter_flag t ≡ 1)

abbrev entered : Keyboard → Keyboard
entered k = put_char (record k { enter_flag = 1 }) b'\n'

module _ (k : Keyboard) (h : IsReady k) (free : k.command_buf (tn k) 0 ≡ 0) where
  press_enter-Copies :
      ((j : ℕ) → j < line_length k (tn k) → k.char_buf j ≢ b'\n')
      → Copies 0 (line_length k (tn k)) (entered k) (press_enter k)
  press_enter-Copies typed =
      let test : (k.command_buf (tn k) 0 == 0) ≡ true = ground arith in
      let c =
        copy_line-Copies 128 0 (line_length k (tn k)) (entered k) (omega arith)
          (omega (arith, h.fits (tn k))) (update_self k.char_buf (line_length k (tn k)) b'\n')
          (λ j hj. ground (arith, typed j)) in
      rw test (record { bytes = c.bytes; flagged = c.flagged; others = c.others })

command_buf-end_line :
    (r : Keyboard)
    → ((end_line (echo r)).command_buf ≡ r.command_buf)
      × ((end_line (echo r)).t_enter_flag ≡ r.t_enter_flag)
command_buf-end_line r = ground arith

-- The bytes that Enter hands over.
pub keyboard_handler-bytes :
    (k : Keyboard)
    → IsReady k
    → k.command_buf (tn k) 0 ≡ 0
    → ((j : ℕ) → j < line_length k (tn k) → k.char_buf j ≢ b'\n')
    → (j : ℕ) → j < line_length k (tn k) + 1
    → (keyboard_handler k 0x1C).0.command_buf (tn k) j
      ≡ update k.char_buf (line_length k (tn k)) b'\n' j
unfolding keyboard_handler keyboard_output_dealer
keyboard_handler-bytes k h free typed j hj =
    let (same, flag) = command_buf-end_line (press_enter k) in
    rw same (
      Copies-byte (line_length k (tn k)) (entered k) (press_enter k)
        (press_enter-Copies k h free typed) j hj)

-- Where the command buffer of the terminal is free, and no newline stands among the typed characters,
-- Enter leaves in it the typed line and a newline, raises the flag that terminal_read waits for, and
-- leaves the other terminals' buffers alone.
pub keyboard_handler-Delivers :
    (k : Keyboard)
    → IsReady k
    → k.command_buf (tn k) 0 ≡ 0
    → ((j : ℕ) → j < line_length k (tn k) → k.char_buf j ≢ b'\n')
    → let r = (keyboard_handler k 0x1C).0 in
      Delivers r (tn k) (line_on k (tn k) ++ b'\n' ∷ [])
      × ((t : ℕ) → t ≢ tn k → r.command_buf t ≡ k.command_buf t)
unfolding keyboard_handler keyboard_output_dealer
keyboard_handler-Delivers k h free typed =
    let n : ℕ = line_length k (tn k) in
    let c = press_enter-Copies k h free typed in
    let (same, flag) = command_buf-end_line (press_enter k) in
    let long : length (line_on k (tn k) ++ b'\n' ∷ []) ≡ n + 1 =
      length-append (line_on k (tn k)) (b'\n' ∷ [])
      ∙ ap (λ x. x + 1) (length-prefix k.char_buf n) in
    (
      (
        rw (long, same)
            (prefix-ext ((press_enter k).command_buf (tn k)) (update k.char_buf n b'\n') (n + 1)
                (Copies-byte n (entered k) (press_enter k) c)
              ∙ prefix-put k.char_buf (n + 1) n b'\n' refl),
        rw flag c.flagged,
      ),
      λ t ne. rw same (c.others t ne),
    )

-- ===== src/Keyboard/Sharing.antt =====
-- The three terminals type into one character buffer.
use native.Mathlib.Decide.{ℕ_discrete}
use lime_os.Prelude.{
  ℕ, zero, suc, ◌<◌, ◌≡◌, ◌≢◌, refl, ap, ap₂, ◌∙◌, sym, List, [], ◌∷◌, ◌++◌, length, set, update,
  arith,
}
use lime_os.Keyboard.{
  Keyboard, tn, put_char, press_enter, keyboard_output_dealer, keyboard_handler, echo, end_line,
}
use lime_os.Keyboard.Line.{prefix, prefix-update, length-prefix, line_length, line_on, IsReady}
use lime_os.Keyboard.Cases.{copy_line-SameInput}
use lime_os.Keyboard.Edit.{keyboard_handler-edit}

set-append_lt : (l r : List ℕ) (i v : ℕ) → i < length l → set (l ++ r) i v ≡ set l i v ++ r
set-append_lt [] r i v h = absurd (omega arith)
set-append_lt (x ∷ l) r zero v h = refl
set-append_lt (x ∷ l) r (suc i) v h = ap (λ q. x ∷ q) (set-append_lt l r i v (omega arith))

set-snoc : (l : List ℕ) (x v i : ℕ) → i ≡ length l → set (l ++ x ∷ []) i v ≡ l ++ v ∷ []
set-snoc [] x v zero h = refl
set-snoc [] x v (suc i) h = absurd (omega arith)
set-snoc (y ∷ l) x v zero h = absurd (omega arith)
set-snoc (y ∷ l) x v (suc i) h = ap (λ q. y ∷ q) (set-snoc l x v i (omega arith))

prefix-set : (f : ℕ → ℕ) (n i v : ℕ) → i < n → prefix (update f i v) n ≡ set (prefix f n) i v
prefix-set f zero i v h = absurd (omega arith)
prefix-set f (suc n) i v h = elim (ℕ_discrete i n) [
  | yes e ↦
      let last : i ≡ length (prefix f n) = e ∙ sym (length-prefix f n) in
      ap₂ (λ l c. l ++ c ∷ []) (prefix-update f n i v (omega arith)) (ground arith)
      ∙ sym (set-snoc (prefix f n) (f n) v i last)
  | no ne ↦
      ap₂ (λ l c. l ++ c ∷ []) (prefix-set f n i v (omega arith)) (ground arith)
      ∙ sym (set-append_lt (prefix f n) (f n ∷ []) i v (omega (arith, length-prefix f n)))
]

char_buf-press_enter :
    (k : Keyboard)
    → (end_line (echo (press_enter k))).char_buf ≡ update k.char_buf (line_length k (tn k)) b'\n'
char_buf-press_enter k =
    ground (arith, copy_line-SameInput 128 0 (put_char (record k { enter_flag = 1 }) b'\n'))

-- Enter on one terminal writes its newline into the middle of the line that is being typed on any
-- other terminal with a longer line: the three terminals share `char_buf`, and only the positions are
-- their own.
pub keyboard_handler-enter_overwrites :
    (k : Keyboard) (t : ℕ)
    → IsReady k
    → t ≢ tn k
    → line_length k (tn k) < line_length k t
    → line_on (keyboard_handler k 0x1C).0 t ≡ set (line_on k t) (line_length k (tn k)) b'\n'
unfolding keyboard_handler keyboard_output_dealer
keyboard_handler-enter_overwrites k t h ne longer =
    let (_, same, _) = keyboard_handler-edit k 0x1C h in
    rw (char_buf-press_enter k, same t ne)
      (prefix-set k.char_buf (line_length k t) (line_length k (tn k)) b'\n' longer)

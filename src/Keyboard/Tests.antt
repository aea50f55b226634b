-- ===== src/Keyboard/Tests.antt =====
-- The theorems on the keyboard with two characters typed on terminal 0 and five on terminal 1.
use lime_os.Prelude.{ℕ, ◌<◌, ◌≡◌, ◌≢◌, refl, [], ◌∷◌, some, set, arith}
use lime_os.Keyboard.{tn, keyboard_handler}
use lime_os.Keyboard.Line.{IsReady, edit, action_of, line_on, line_length}
use lime_os.Keyboard.Edit.{keyboard_handler-edit}
use lime_os.Keyboard.Sharing.{keyboard_handler-enter_overwrites}
use lime_os.Pic.{outb, enable_irq, unmask}
use lime_os.Keyboard.Init.{initialize_keyboard, initialize_keyboard-ends}
use lime_os.Samples.{keyboard, pic}

keyboard-IsReady : IsReady keyboard
keyboard-IsReady = record {
  words = λ t. ground arith;
  fits = λ t. ground arith;
  no_add = refl;
  no_enter = refl;
}

-- The scancode of "a".
keyboard_handler-edit_example :
    let r = (keyboard_handler keyboard 0x1E).0 in
    (line_on r (tn keyboard) ≡ edit (action_of keyboard 0x1E) (line_on keyboard (tn keyboard)))
    × ((t : ℕ) → t ≢ tn keyboard → line_length r t ≡ line_length keyboard t)
    × IsReady r
keyboard_handler-edit_example = keyboard_handler-edit keyboard 0x1E keyboard-IsReady

typed_no_newline : (j : ℕ) → j < line_length keyboard 0 → keyboard.char_buf j ≢ b'\n'
typed_no_newline j h = omega arith

keyboard_handler-enter_overwrites_example :
    line_on (keyboard_handler keyboard 0x1C).0 1
    ≡ set (line_on keyboard 1) (line_length keyboard (tn keyboard)) b'\n'
keyboard_handler-enter_overwrites_example =
    keyboard_handler-enter_overwrites keyboard 1 keyboard-IsReady (omega arith) (omega arith)

initialize_keyboard-ends_example :
    initialize_keyboard pic (0xFE ∷ 0x1C ∷ 0xFE ∷ 0xFA ∷ 0x1C ∷ [])
    ≡ some (
      record { master_mask = 0xF9; slave_mask = 0xFF },
      outb 0xF6 0x60 ∷ outb 0xF6 0x60 ∷ outb 0xF6 0x60 ∷ outb 0xF9 0x21 ∷ [],
    )
unfolding enable_irq unmask
initialize_keyboard-ends_example =
    initialize_keyboard-ends pic (0xFE ∷ 0x1C ∷ 0xFE ∷ []) (0x1C ∷ [])
      (omega arith, (omega arith, (omega arith, tt)))

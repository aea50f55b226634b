-- ===== src/Keyboard/Init.antt =====
-- initialize_keyboard of student-distrib/keyboard.c. The bytes that the data port gives, one after another,
-- are an argument.
use lime_os.Prelude.{
  ℕ, ◌≡◌, ◌≢◌, refl, ap, false, List, [], ◌∷◌, ◌++◌, Option, none, some, ◌==◌, if◌then◌else◌,
  choose, arith,
}
use lime_os.Pic.{Out, outb, Pic, enable_irq}

abbrev pub default_para : ℕ
default_para = 0xF6

abbrev pub keyboard_ack : ℕ
keyboard_ack = 0xFA

abbrev pub keyboard_resend : ℕ
keyboard_resend = 0xFE

abbrev pub keyboard_data_port : ℕ
keyboard_data_port = 0x60

abbrev send_first : List Out → Option (List Out) → Option (List Out)
send_first o none = none
send_first o (some sent) = some (o ++ sent)

-- The loop: what is sent before the byte KEYBOARD_ACK comes. `none`: it does not come.
unfoldable pub wait_ack : List ℕ → Option (List Out)
wait_ack [] = none
wait_ack (check ∷ answers) =
    let rest = wait_ack answers in
    if check == keyboard_ack
    then some []
    else if check == keyboard_resend
    then send_first (outb default_para keyboard_data_port ∷ []) rest
    else rest

abbrev finish_init : Pic → Option (List Out) → Option (Pic × List Out)
finish_init p none = none
finish_init p (some sent) =
    let (q, o) = enable_irq p 1 in some (q, outb default_para keyboard_data_port ∷ (sent ++ o))

unfoldable pub initialize_keyboard : Pic → List ℕ → Option (Pic × List Out)
initialize_keyboard p answers = finish_init p (wait_ack answers)

-- Answers without the byte KEYBOARD_ACK.
abbrev pub NoAck : List ℕ → Type 0
NoAck [] = Unit
NoAck (c ∷ answers) = (c ≢ keyboard_ack) × NoAck answers

-- The command is sent once for each request to send it again.
abbrev pub resends : List ℕ → List Out
resends [] = []
resends (c ∷ answers) =
    if c == keyboard_resend
    then outb default_para keyboard_data_port ∷ resends answers
    else resends answers

wait_ack-resends :
    (before after : List ℕ)
    → NoAck before
    → wait_ack (before ++ (keyboard_ack ∷ after)) ≡ some (resends before)
unfolding wait_ack
wait_ack-resends [] after h = refl
wait_ack-resends (c ∷ before) after (other, h) =
    let e : wait_ack (before ++ (keyboard_ack ∷ after)) ≡ some (resends before) =
      wait_ack-resends before after h in
    let not_ack : (c == keyboard_ack) ≡ false = ground arith in
    rw (not_ack, e)
      (choose (λ r. r ≡ some (resends (c ∷ before))) (c == keyboard_resend) _ _ (λ q. rw q refl)
        λ q. rw q refl)

-- Whatever the keyboard answers before its first KEYBOARD_ACK, initialize_keyboard ends at that byte,
-- having sent DEFAULT_PARA once and once more for every KEYBOARD_RESEND before it, and nothing but the
-- mask of line 1 behind it.
pub initialize_keyboard-ends :
    (p : Pic) (before after : List ℕ)
    → NoAck before
    → initialize_keyboard p (before ++ (keyboard_ack ∷ after))
      ≡ some (
        (enable_irq p 1).0,
        outb default_para keyboard_data_port ∷ (resends before ++ (enable_irq p 1).1),
      )
unfolding initialize_keyboard
initialize_keyboard-ends p before after h = ap (finish_init p) (wait_ack-resends before after h)

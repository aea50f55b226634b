-- ===== src/Keyboard/Edit.antt =====
-- A key press edits the line of its terminal.
use lime_os.Prelude.{
  choose, ℕ, ◌≤◌, ◌≡◌, ◌≢◌, refl, ◌∙◌, true, false, minus_one, ◌==◌, update_self, arith,
}
use native.Mathlib.Decide.{ℕ_discrete}
use lime_os.Console.Isolation.{terminal_write-terminal_num}
use lime_os.Keyboard.{Keyboard, tn, echo, end_line, keyboard_output_dealer, keyboard_handler}
use lime_os.Keyboard.Line.{line_length, line_on, IsReady, edit, action_of}
use lime_os.Keyboard.Cases.{Dealt}
use lime_os.Keyboard.Dealer.{keyboard_output_dealer-Dealt}

-- The echo writes on the screen and settles `isAdd`.
pub record Echoed (r q : Keyboard) : Type 0 where
  pub echo_char_buf : q.char_buf ≡ r.char_buf
  pub echo_buf_index : q.buf_index ≡ r.buf_index
  pub echo_enter : q.enter_flag ≡ r.enter_flag
  pub echo_terminal : tn q ≡ tn r
  pub echo_done : q.is_add ≡ 0

pub echo-Echoed : (r : Keyboard) → r.is_add ≤ 1 → Echoed r (echo r)
echo-Echoed r h =
    choose (Echoed r) (r.is_add == 1) _ _
      (λ e. record {
        echo_char_buf = refl;
        echo_buf_index = refl;
        echo_enter = refl;
        echo_terminal = terminal_write-terminal_num r.console _ 1;
        echo_done = refl;
      })
      (λ e. record {
        echo_char_buf = refl;
        echo_buf_index = refl;
        echo_enter = refl;
        echo_terminal = refl;
        echo_done = ground arith;
      })

abbrev Edited : Keyboard → ℕ → Keyboard → Type 0
Edited k c r =
    (line_on r (tn k) ≡ edit (action_of k c) (line_on k (tn k)))
    × ((t : ℕ) → t ≢ tn k → line_length r t ≡ line_length k t)
    × IsReady r

end_line-enter :
    (k q r : Keyboard) → IsReady k → Dealt k 0x1C r → Echoed r q → Edited k 0x1C (end_line q)
unfolding action_of
end_line-enter k q r h d e =
    let (on, same) = d.here refl in
    let pending : q.enter_flag ≡ 1 = e.echo_enter ∙ on in
    let there : tn q ≡ tn k = e.echo_terminal ∙ same in
    let test : (q.enter_flag == 1) ≡ true = ground arith in
    rw test (
      rw (there, update_self q.buf_index (tn k) minus_one),
      λ t ne. ground (arith, d.others t ne, e.echo_buf_index),
      record {
        words = λ t. ground (arith, d.words t, e.echo_buf_index);
        fits = λ t. elim (ℕ_discrete t (tn k)) [
          | yes at ↦ ground arith
          | no ne ↦ ground (arith, d.others t ne, e.echo_buf_index, h.fits t)
        ];
        no_add = e.echo_done;
        no_enter = refl;
      },
    )

end_line-other :
    (k : Keyboard) (c : ℕ) (q r : Keyboard)
    → c ≢ 0x1C
    → Dealt k c r
    → Echoed r q
    → Edited k c (end_line q)
end_line-other k c q r hc d e =
    let idle : q.enter_flag ≡ 0 = e.echo_enter ∙ d.elsewhere hc in
    let test : (q.enter_flag == 1) ≡ false = ground arith in
    rw test (
      rw (e.echo_char_buf, e.echo_buf_index) (d.line (d.elsewhere hc)),
      λ t ne. rw (e.echo_buf_index, d.others t ne),
      record {
        words = λ t. rw e.echo_buf_index (d.words t);
        fits = λ t. rw e.echo_buf_index (d.fits (d.elsewhere hc) t);
        no_add = e.echo_done;
        no_enter = idle;
      },
    )

-- From a driver between two interrupts, a key press, whatever its scancode, edits the line of the terminal
-- that it is typed on as the line editor does, leaves the other terminals' positions alone, and leaves
-- the driver ready for the next.
pub keyboard_handler-edit :
    (k : Keyboard) (c : ℕ)
    → IsReady k
    → let r = (keyboard_handler k c).0 in
      (line_on r (tn k) ≡ edit (action_of k c) (line_on k (tn k)))
      × ((t : ℕ) → t ≢ tn k → line_length r t ≡ line_length k t)
      × IsReady r
unfolding keyboard_handler
keyboard_handler-edit k c h = elim (ℕ_discrete c 0x1C) [
  | yes enter ↦ rw enter (
      end_line-enter k _ _ h (dealt 0x1C)
        (echo-Echoed (keyboard_output_dealer k 0x1C) (dealt 0x1C).add))
  | no other ↦
      end_line-other k c _ _ other (dealt c)
        (echo-Echoed (keyboard_output_dealer k c) (dealt c).add)
]
  where
    dealt : (x : ℕ) → Dealt k x (keyboard_output_dealer k x)
    dealt x = keyboard_output_dealer-Dealt k x h

-- ===== src/Keyboard/Cases.antt =====
-- What each kind of key press leaves behind, before the echo.
use lime_os.Prelude.{
  ℕ, zero, suc, ◌+◌, ◌<◌, ◌≤◌, ◌≡◌, ◌≢◌, refl, ◌∙◌, true, false, length, lt→ltb, u32, minus_one,
  lt_signed, ltb, ◌==◌, update, update_self, arith, Bool-cases, inl, inr,
}
use lime_os.Console.{clear, reset_screen}
use lime_os.Keyboard.{
  Keyboard, tn, put_char, copy_line, copy_char, press_enter, press_backspace, set_t_enter_flag,
}
use lime_os.Keyboard.Line.{
  length-prefix, prefix-put, prefix-drop_last, line_length, line_on, IsReady, edit, action_of, keep,
  discard, typed,
}

-- The loop of Enter touches the command buffer and the enter flag only.
pub record SameInput (k r : Keyboard) : Type 0 where
  pub same_console : r.console ≡ k.console
  pub same_char_buf : r.char_buf ≡ k.char_buf
  pub same_buf_index : r.buf_index ≡ k.buf_index
  pub same_enter : r.enter_flag ≡ k.enter_flag

pub copy_line-SameInput : (n i : ℕ) (k : Keyboard) → SameInput k (copy_line n i k)
unfolding copy_line set_t_enter_flag
copy_line-SameInput zero i k = record {
  same_console = refl;
  same_char_buf = refl;
  same_buf_index = refl;
  same_enter = refl;
}
copy_line-SameInput (suc n) i k =
    let ih = copy_line-SameInput n (i + 1) (copy_char i k) in
    elim (Bool-cases (k.char_buf i == b'\n')) [
      | inl e ↦ rw e (record {
        same_console = refl;
        same_char_buf = refl;
        same_buf_index = refl;
        same_enter = refl;
      })
      | inr e ↦ rw e (record {
        same_console = ih.same_console;
        same_char_buf = ih.same_char_buf;
        same_buf_index = ih.same_buf_index;
        same_enter = ih.same_enter;
      })
    ]

-- What a key press leaves for the echo and the end of the line: the same terminal, unless Alt and a
-- function key switch it, and the line edited.
pub record Dealt (k : Keyboard) (c : ℕ) (r : Keyboard) : Type 0 where
  pub line : r.enter_flag ≡ 0 → line_on r (tn k) ≡ edit (action_of k c) (line_on k (tn k))
  pub words : (t : ℕ) → r.buf_index t < 4294967296
  pub fits : r.enter_flag ≡ 0 → (t : ℕ) → line_length r t ≤ 127
  pub others : (t : ℕ) → t ≢ tn k → r.buf_index t ≡ k.buf_index t
  pub here : (c ≡ 0x1C) → (r.enter_flag ≡ 1) × (tn r ≡ tn k)
  pub elsewhere : c ≢ 0x1C → r.enter_flag ≡ 0
  pub add : r.is_add ≤ 1

pub press_enter-Dealt : (k : Keyboard) → IsReady k → Dealt k 0x1C (press_enter k)
press_enter-Dealt k h =
    let same = copy_line-SameInput 128 0 (put_char (record k { enter_flag = 1 }) b'\n') in
    elim (Bool-cases (k.command_buf (tn k) 0 == 0)) [
      | inl free ↦ rw free (record {
        line = λ e. absurd (ground arith);
        words = λ t. ground (arith, h.words t);
        fits = λ e. absurd (ground arith);
        others = λ t ne. ground arith;
        here = λ _. ground arith;
        elsewhere = λ ne. absurd (ne refl);
        add = omega arith;
      })
      | inr taken ↦ rw taken (record {
        line = λ e. absurd (omega arith);
        words = λ t. ground (arith, h.words t);
        fits = λ e. absurd (omega arith);
        others = λ t ne. ground arith;
        here = λ _. (refl, refl);
        elsewhere = λ ne. absurd (ne refl);
        add = omega arith;
      })
    ]

pub press_backspace-Dealt : (k : Keyboard) → IsReady k → Dealt k 0x0E (press_backspace k)
unfolding action_of
press_backspace-Dealt k h = elim (Bool-cases (lt_signed minus_one (k.buf_index (tn k)))) [
  | inl some_typed ↦ rw some_typed (record {
    line = λ _.
        prefix-drop_last k.char_buf
          (u32 (update k.buf_index (tn k) (u32 (k.buf_index (tn k) + minus_one)) (tn k) + 1))
          (line_length k (tn k)) (ground (arith, h.words (tn k), h.fits (tn k)));
    words = λ t. ground (arith, h.words t);
    fits = λ _ t. ground (arith, h.fits t, h.fits (tn k), h.words (tn k));
    others = λ t ne. ground arith;
    here = λ e. omega arith;
    elsewhere = λ _. h.no_enter;
    add = omega arith;
  })
  | inr empty ↦ rw empty (record {
    line = λ _.
        let e : line_length k (tn k) ≡ 0 = ground (arith, h.words (tn k), h.fits (tn k)) in rw e;
    words = h.words;
    fits = λ _. h.fits;
    others = λ t ne. refl;
    here = λ e. omega arith;
    elsewhere = λ _. h.no_enter;
    add = omega arith;
  })
]

pub unchanged-Dealt :
    (k : Keyboard) (c : ℕ) (r : Keyboard)
    → IsReady k
    → action_of k c ≡ keep
    → c ≢ 0x1C
    → r.buf_index ≡ k.buf_index
    → r.char_buf ≡ k.char_buf
    → r.enter_flag ≡ k.enter_flag
    → r.is_add ≤ 1
    → Dealt k c r
unchanged-Dealt k c r h ha hc hb hf he hd = record {
  line = λ _. rw (ha, hb, hf);
  words = λ t. rw hb (h.words t);
  fits = λ _ t. rw hb (h.fits t);
  others = λ t ne. rw hb;
  here = λ e. absurd (hc e);
  elsewhere = λ _. he ∙ h.no_enter;
  add = hd;
}

pub short_length :
    (k : Keyboard)
    → IsReady k
    → lt_signed (k.buf_index (tn k)) 126 ≡ true
    → line_length k (tn k) < 127
short_length k h room = ground (arith, h.words (tn k), h.fits (tn k))

pub short :
    (k : Keyboard)
    → IsReady k
    → lt_signed (k.buf_index (tn k)) 126 ≡ true
    → length (line_on k (tn k)) < 127
short k h room =
    omega (arith, length-prefix k.char_buf (line_length k (tn k)), short_length k h room)

pub full :
    (k : Keyboard)
    → IsReady k
    → lt_signed (k.buf_index (tn k)) 126 ≡ false
    → ltb (length (line_on k (tn k))) 127 ≡ false
full k h taken =
    ground (arith, length-prefix k.char_buf (line_length k (tn k)), h.words (tn k), h.fits (tn k))

pub put_char-Dealt :
    (k : Keyboard) (c ch : ℕ)
    → IsReady k
    → action_of k c ≡ typed ch
    → c ≢ 0x1C
    → lt_signed (k.buf_index (tn k)) 126 ≡ true
    → Dealt k c (put_char (record k { is_add = 1 }) ch)
put_char-Dealt k c ch h ha hc room = record {
  line = λ _.
      rw (ha, lt→ltb (length (line_on k (tn k))) 127 (short k h room))
        (prefix-put k.char_buf (u32 (update k.buf_index (tn k) (line_length k (tn k)) (tn k) + 1))
          (line_length k (tn k)) ch (ground (arith, short_length k h room)));
  words = λ t. ground (arith, h.words t);
  fits = λ _ t. ground (arith, h.words (tn k), h.fits (tn k), h.fits t);
  others = λ t ne. ground arith;
  here = λ e. absurd (hc e);
  elsewhere = λ _. h.no_enter;
  add = omega arith;
}

pub full-Dealt :
    (k : Keyboard) (c ch : ℕ)
    → IsReady k
    → action_of k c ≡ typed ch
    → c ≢ 0x1C
    → lt_signed (k.buf_index (tn k)) 126 ≡ false
    → Dealt k c k
full-Dealt k c ch h ha hc taken = record {
  line = λ _. rw (ha, full k h taken);
  words = h.words;
  fits = λ _. h.fits;
  others = λ t ne. refl;
  here = λ e. absurd (hc e);
  elsewhere = λ _. h.no_enter;
  add = omega arith;
}

pub discard-Dealt :
    (k : Keyboard) (c : ℕ)
    → IsReady k
    → action_of k c ≡ discard
    → c ≢ 0x1C
    → Dealt k c (record k {
      console = reset_screen (clear k.console);
      buf_index = update k.buf_index (tn k) minus_one;
    })
discard-Dealt k c h ha hc = record {
  line = λ _. rw (ha, update_self k.buf_index (tn k) minus_one);
  words = λ t. ground (arith, h.words t);
  fits = λ _ t. ground (arith, h.fits t);
  others = λ t ne. ground arith;
  here = λ e. absurd (hc e);
  elsewhere = λ _. h.no_enter;
  add = omega arith;
}

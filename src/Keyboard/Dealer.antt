-- ===== src/Keyboard/Dealer.antt =====
-- What keyboard_output_dealer leaves behind, for every scancode.
use lime_os.Prelude.{
  ℕ, ◌≤◌, ◌≡◌, refl, true, false, ◌&&◌, ◌||◌, lt_signed, ltb, leb, ◌==◌, arith, Bool-cases, choose,
  inl, inr,
}
use lime_os.Keyboard.{
  Keyboard, tn, char_of, default_key_pressed, keyboard_output_dealer, key_f1, key_f3, table_size,
}
use lime_os.Keyboard.Line.{IsReady, is_modifier, action_of}
use lime_os.Keyboard.Cases.{
  Dealt, press_enter-Dealt, press_backspace-Dealt, unchanged-Dealt, put_char-Dealt, full-Dealt,
  discard-Dealt,
}

-- The scancodes that the `switch` leaves to default_key_pressed.
abbrev pub IsPlain : ℕ → Type 0
IsPlain c = ((c == 0x1C) ≡ false) × ((c == 0x0E) ≡ false) × (is_modifier c ≡ false)

pub default_key_pressed-Dealt :
    (k : Keyboard) (c : ℕ) → IsReady k → IsPlain c → Dealt k c (default_key_pressed k c)
unfolding default_key_pressed action_of
default_key_pressed-Dealt k c h (ne1, ne2, ne3) =
    elim (Bool-cases (k.alt_flag == 1 && leb key_f1 c && leb c key_f3)) [
      | inl switch ↦ rw switch (
          unchanged-Dealt k c _ h (rw (ne1, ne2, ne3) (ground arith)) (ground arith) refl refl refl
            (omega arith))
      | inr stay ↦ rw stay (elim (Bool-cases (ltb table_size c)) [
        | inl high ↦ rw high (
            unchanged-Dealt k c k h (rw (ne1, ne2, ne3, high)) (ground arith) refl refl refl
              (omega arith))
        | inr low ↦
            rw low
              (elim (Bool-cases
                (k.ctrl_flag == 1 && (char_of k c == b'l' || char_of k c == b'L'))) [
                  | inl clearing ↦
                      rw clearing
                        (discard-Dealt k c h (rw (ne1, ne2, ne3, low, clearing)) (ground arith))
                  | inr plain ↦ rw plain (elim (Bool-cases (char_of k c == 0)) [
                    | inl dead ↦ rw dead (
                        unchanged-Dealt k c _ h (rw (ne1, ne2, ne3, low, plain, dead))
                          (ground arith) refl refl refl (omega arith))
                    | inr live ↦ rw live (elim (Bool-cases (lt_signed (k.buf_index (tn k)) 126)) [
                      | inl room ↦ rw room (
                          put_char-Dealt k c (char_of k c) h (rw (ne1, ne2, ne3, low, plain, live))
                            (ground arith) room)
                      | inr taken ↦ rw taken (
                          full-Dealt k c (char_of k c) h (rw (ne1, ne2, ne3, low, plain, live))
                            (ground arith) taken)
                    ])
                  ])
                ])
      ])
    ]

module _ (k : Keyboard) (c : ℕ) (h : IsReady k) (is_modifier : is_modifier c ≡ true) where
  modifier-Dealt :
      (r : Keyboard)
      → r.buf_index ≡ k.buf_index
      → r.char_buf ≡ k.char_buf
      → r.enter_flag ≡ k.enter_flag
      → r.is_add ≤ 1
      → Dealt k c r
  unfolding action_of
  modifier-Dealt r hb hf he hd =
      unchanged-Dealt k c r h (rw (not_enter, not_back, is_modifier)) (ground arith) hb hf he hd
    where
      not_enter : (c == 0x1C) ≡ false
      not_enter = ground arith

      not_back : (c == 0x0E) ≡ false
      not_back = ground arith

pub keyboard_output_dealer-Dealt :
    (k : Keyboard) (c : ℕ) → IsReady k → Dealt k c (keyboard_output_dealer k c)
unfolding keyboard_output_dealer
keyboard_output_dealer-Dealt k c h =
    choose P (c == 0x1C) _ _
      (λ e. let e' : c ≡ 0x1C = ground arith in rw e' (press_enter-Dealt k h))
      λ n1.
        choose P (c == 0x2A || c == 0x36) _ _
          (λ e. modifier (ground arith) _ refl refl refl (omega arith))
          λ n2.
            choose P (c == 0xAA || c == 0xB6) _ _
              (λ e. modifier (ground arith) _ refl refl refl (omega arith))
              λ n3.
                choose P (c == 0x1D) _ _
                  (λ e. modifier (ground arith) _ refl refl refl (omega arith))
                  λ n4.
                    choose P (c == 0x9D) _ _
                      (λ e. modifier (ground arith) _ refl refl refl (omega arith))
                      λ n5.
                        choose P (c == 0x38) _ _
                          (λ e. modifier (ground arith) _ refl refl refl (omega arith))
                          λ n6.
                            choose P (c == 0xB8) _ _
                              (λ e. modifier (ground arith) _ refl refl refl (omega arith))
                              λ n7.
                                choose P (c == 0x0E) _ _
                                  (λ e.
                                    let e' : c ≡ 0x0E = ground arith in
                                    rw e' (press_backspace-Dealt k h))
                                  λ n8.
                                    choose P (c == 0x3A) _ _
                                      (λ e.
                                        choose P (k.release_caps == 1) _ _
                                          (λ released.
                                            modifier (ground arith) _ refl refl refl (omega arith))
                                          (λ held.
                                            modifier (ground arith) k refl refl refl (omega arith)))
                                      λ n9.
                                        choose P (c == 0xBA) _ _
                                          (λ e.
                                            modifier (ground arith) _ refl refl refl (omega arith))
                                          λ n10.
                                            default_key_pressed-Dealt k c h (n1, n8, ground arith)
  where
    P : Keyboard → Type 0
    P = Dealt k c

    modifier :
        is_modifier c ≡ true
        → (r : Keyboard) → r.buf_index ≡ k.buf_index
        → r.char_buf ≡ k.char_buf
        → r.enter_flag ≡ k.enter_flag
        → r.is_add ≤ 1
        → Dealt k c r
    modifier e = modifier-Dealt k c h e

-- ===== src/Keyboard/Line.antt =====
-- The line that is being typed: a line editor, and what the driver's state says of its line.
use lime_os.Prelude.{
  ℕ, zero, suc, ◌+◌, ◌<◌, ◌≤◌, ◌≡◌, refl, ap, ap₂, sym, Bool, ◌&&◌, ◌||◌, List, [], ◌∷◌, ◌++◌,
  length, length-append, u32, ltb, ◌==◌, if◌then◌else◌, update, arith,
}
use lime_os.Keyboard.{Keyboard, char_of, table_size}

-- The first `n` elements of a buffer.
abbrev pub prefix : (ℕ → ℕ) → ℕ → List ℕ
prefix f zero = []
prefix f (suc n) = prefix f n ++ f n ∷ []

pub length-prefix : (f : ℕ → ℕ) (n : ℕ) → length (prefix f n) ≡ n
length-prefix f zero = refl
length-prefix f (suc n) = omega (arith, length-append (prefix f n) (f n ∷ []), length-prefix f n)

pub prefix-update : (f : ℕ → ℕ) (n i v : ℕ) → n ≤ i → prefix (update f i v) n ≡ prefix f n
prefix-update f zero i v h = refl
prefix-update f (suc n) i v h =
    ap₂ (λ l c. l ++ c ∷ []) (prefix-update f n i v (omega arith)) (ground arith)

pub prefix-put :
    (f : ℕ → ℕ) (m n v : ℕ) → m ≡ n + 1 → prefix (update f n v) m ≡ prefix f n ++ v ∷ []
prefix-put f m n v h =
    let e : m ≡ suc n = omega arith in
    rw e (ap₂ (λ l c. l ++ c ∷ []) (prefix-update f n n v (omega arith)) (ground arith))

-- A list without its last element.
abbrev pub drop_last : List ℕ → List ℕ
drop_last [] = []
drop_last (x ∷ []) = []
drop_last (x ∷ y ∷ l) = x ∷ drop_last (y ∷ l)

pub drop_last-snoc : (l : List ℕ) (v : ℕ) → drop_last (l ++ v ∷ []) ≡ l
drop_last-snoc [] v = refl
drop_last-snoc (x ∷ []) v = refl
drop_last-snoc (x ∷ y ∷ l) v = ap (λ r. x ∷ r) (drop_last-snoc (y ∷ l) v)

pub prefix-drop_last : (f : ℕ → ℕ) (m n : ℕ) → n ≡ m + 1 → prefix f m ≡ drop_last (prefix f n)
prefix-drop_last f m n h =
    let e : n ≡ suc m = omega arith in rw e (sym (drop_last-snoc (prefix f m) (f m)))

-- The number of characters typed on terminal `t`, and the characters.
abbrev pub line_length : Keyboard → ℕ → ℕ
line_length k t = u32 (k.buf_index t + 1)

abbrev pub line_on : Keyboard → ℕ → List ℕ
line_on k t = prefix k.char_buf (line_length k t)

-- Between interrupts: no line is longer than 127 characters, and no request is pending.
pub record IsReady (k : Keyboard) : Type 0 where
  pub words : (t : ℕ) → k.buf_index t < 4294967296
  pub fits : (t : ℕ) → line_length k t ≤ 127
  pub no_add : k.is_add ≡ 0
  pub no_enter : k.enter_flag ≡ 0

-- What a key press asks of the line.
pub data Action : Type 0 where
  keep erase submit discard : Action
  typed : ℕ → Action

-- A line editor with room for 127 characters.
abbrev pub edit : Action → List ℕ → List ℕ
edit keep l = l
edit erase l = drop_last l
edit submit l = []
edit discard l = []
edit (typed c) l = if ltb (length l) 127 then l ++ c ∷ [] else l

abbrev pub is_modifier : ℕ → Bool
is_modifier c =
    (c == 0x2A)
    || (c == 0x36)
    || (c == 0xAA)
    || (c == 0xB6)
    || (c == 0x1D)
    || (c == 0x9D)
    || (c == 0x38)
    || (c == 0xB8)
    || (c == 0x3A)
    || (c == 0xBA)

-- The action of a scancode under the state of the modifier keys.
unfoldable pub action_of : Keyboard → ℕ → Action
action_of k c =
    if c == 0x1C
    then submit
    else if c == 0x0E
    then erase
    else if is_modifier c || ltb table_size c
    then keep
    else if k.ctrl_flag == 1 && (char_of k c == b'l' || char_of k c == b'L')
    then discard
    else if char_of k c == 0
    then keep
    else typed (char_of k c)

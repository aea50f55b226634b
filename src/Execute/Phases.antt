-- ===== src/Execute/Phases.antt =====
-- The stretches of the parsing loop of execute, student-distrib/system_call.c: the name, the spaces,
-- and the arguments.
use lime_os.Prelude.{
  ℕ, zero, suc, ◌+◌, ◌<◌, ◌≤◌, ◌≡◌, ◌≢◌, refl, ap, ◌∙◌, sym, not, ◌||◌, List, [], ◌∷◌, ◌++◌, length,
  some, ◌==◌, update, update_self, update_ne, arith, true, false,
}
use lime_os.Execute.Parse.{
  Parser, parse_char, parse_loop, finish_parse, read_string, write_bytes, arg_index,
}

-- No NUL in it.
abbrev pub NoNul : List ℕ → Type 0
NoNul [] = Unit
NoNul (c ∷ s) = (c ≢ 0) × NoNul s

-- Neither a NUL nor a space in it.
abbrev pub IsWord : List ℕ → Type 0
IsWord [] = Unit
IsWord (c ∷ s) = (c ≢ 0) × (c ≢ b' ') × IsWord s

abbrev pub spaces_of : ℕ → List ℕ
spaces_of zero = []
spaces_of (suc n) = b' ' ∷ spaces_of n

-- The parser behind a part of the name.
abbrev pub named : Parser → List ℕ → Parser
named p name = record p { i = p.i + length name; file_name = write_bytes p.file_name p.i name }

pub name_char :
    (p : Parser) (c : ℕ)
    → c ≢ b' '
    → (p.spaces == 0) ≡ true
    → p.i < 32
    → parse_char p c ≡ some (record p { file_name = update p.file_name p.i c; i = p.i + 1 })
unfolding parse_char
name_char p c hc hs hi = ground arith

pub loop_step :
    (p q : Parser) (c : ℕ) (cs : List ℕ)
    → c ≢ 0
    → parse_char p c ≡ some q
    → parse_loop p (c ∷ cs) ≡ parse_loop q cs
unfolding parse_loop
loop_step p q c cs hc e = let ne : (c == 0) ≡ false = ground arith in rw (ne, e) refl

pub parse_name :
    (p : Parser) (name rest : List ℕ)
    → IsWord name
    → (p.spaces == 0) ≡ true
    → p.i + length name ≤ 32
    → parse_loop p (name ++ rest) ≡ parse_loop (named p name) rest
parse_name p [] rest hw hs hi = let e : p.i + 0 ≡ p.i = omega arith in rw e refl
parse_name p (c ∷ name) rest hw hs hi =
    loop_step p q c (name ++ rest) hw.0 (name_char p c hw.1 hs (omega arith))
    ∙ parse_name q name rest hw.2 hs (omega arith)
    ∙ ap
        (λ i.
          parse_loop (record p { i = i; file_name = write_bytes q.file_name (p.i + 1) name }) rest)
        total
  where
    q : Parser
    q = record p { file_name = update p.file_name p.i c; i = p.i + 1 }

    total : p.i + 1 + length name ≡ p.i + suc (length name)
    total = omega arith

-- The space that ends the name.
pub first_space :
    (p : Parser)
    → (p.spaces == 0) ≡ true
    → (p.end_of_file_name == 0) ≡ true
    → (p.local_arg_start_flag == 0) ≡ true
    → p.i < 32
    → parse_char p b' '
      ≡ some (record p {
        i = p.i + 1;
        file_name = update p.file_name p.i 0;
        file_length = p.i;
        spaces = p.spaces + 1;
        end_of_file_name = 2;
      })
unfolding parse_char
first_space p hs he hf hi = ground arith

-- A further space in front of the arguments.
pub next_space :
    (p : Parser)
    → (p.spaces == 0) ≡ false
    → 1 < p.end_of_file_name
    → (p.local_arg_start_flag == 0) ≡ true
    → parse_char p b' '
      ≡ some (record p {
        i = p.i + 1;
        spaces = p.spaces + 1;
        end_of_file_name = p.end_of_file_name + 1;
      })
unfolding parse_char
next_space p hs he hf = ground arith

-- A byte of the arguments: any but a space at first.
pub arg_char :
    (p : Parser) (c : ℕ)
    → (p.spaces == 0) ≡ false
    → 1 < p.end_of_file_name
    → (not (c == b' ') || p.local_arg_start_flag == 1) ≡ true
    → arg_index p < 128
    → parse_char p c
      ≡ some (record p {
        i = p.i + 1;
        local_arg = update p.local_arg (arg_index p) c;
        end_of_file_name = p.end_of_file_name + 1;
        local_arg_start_flag = 1;
      })
unfolding parse_char
arg_char p c hs he hc hi = ground arith

pub parse_spaces :
    (p : Parser) (n : ℕ) (rest : List ℕ)
    → (p.spaces == 0) ≡ false
    → 1 < p.end_of_file_name
    → (p.local_arg_start_flag == 0) ≡ true
    → parse_loop p (spaces_of n ++ rest)
      ≡ parse_loop
          (record p {
            i = p.i + n;
            spaces = p.spaces + n;
            end_of_file_name = p.end_of_file_name + n;
          })
          rest
parse_spaces p zero rest hs he hf =
    let a : p.i + 0 ≡ p.i = omega arith in
    let b : p.spaces + 0 ≡ p.spaces = omega arith in
    let d : p.end_of_file_name + 0 ≡ p.end_of_file_name = omega arith in rw (a, b, d) refl
parse_spaces p (suc n) rest hs he hf =
    loop_step p q b' ' (spaces_of n ++ rest) (omega arith) (next_space p hs he hf)
    ∙ parse_spaces q n rest (ground arith) (omega arith) hf
    ∙ rw (a, b, d) refl
  where
    q : Parser
    q = record p { i = p.i + 1; spaces = p.spaces + 1; end_of_file_name = p.end_of_file_name + 1 }

    a : p.i + 1 + n ≡ p.i + suc n
    a = omega arith

    b : p.spaces + 1 + n ≡ p.spaces + suc n
    b = omega arith

    d : p.end_of_file_name + 1 + n ≡ p.end_of_file_name + suc n
    d = omega arith

pub parse_arg :
    (p : Parser) (arg : List ℕ) (j : ℕ)
    → NoNul arg
    → (p.spaces == 0) ≡ false
    → 1 < p.end_of_file_name
    → p.local_arg_start_flag ≡ 1
    → arg_index p ≡ j
    → p.i ≡ p.file_length + p.spaces + j
    → p.i + length arg < 4294967296
    → j + length arg ≤ 128
    → parse_loop p arg
      ≡ some (record p {
        i = p.i + length arg;
        local_arg = write_bytes p.local_arg j arg;
        end_of_file_name = p.end_of_file_name + length arg;
        local_arg_start_flag = 1;
      })
unfolding parse_loop
parse_arg p [] j hn hs he hf hj hi hw hl =
    let a : p.i + 0 ≡ p.i = omega arith in
    let d : p.end_of_file_name + 0 ≡ p.end_of_file_name = omega arith in
    rw (a, d) (ap (λ f. some (record p { local_arg_start_flag = f })) hf)
parse_arg p (c ∷ arg) j hn hs he hf hj hi hw hl =
    loop_step p q c arg hn.0 (arg_char p c hs he (ground arith) (omega (arith, hj)))
    ∙ ap (λ (k : ℕ). parse_loop (record q { local_arg = update p.local_arg k c }) arg) hj
    ∙ parse_arg (record q { local_arg = update p.local_arg j c }) arg (j + 1) hn.1 hs (omega arith)
        refl (omega (arith, hj)) (omega arith) (omega arith) (omega arith)
    ∙ rw (a, d) refl
  where
    q : Parser
    q = record p {
      i = p.i + 1;
      local_arg = update p.local_arg (arg_index p) c;
      end_of_file_name = p.end_of_file_name + 1;
      local_arg_start_flag = 1;
    }

    a : p.i + 1 + length arg ≡ p.i + suc (length arg)
    a = omega arith

    d : p.end_of_file_name + 1 + length arg ≡ p.end_of_file_name + suc (length arg)
    d = omega arith

pub store-nul :
    (p : Parser)
    → arg_index p < 128
    → (p.spaces == 0) ≡ false
    → finish_parse p ≡ some (record p { local_arg = update p.local_arg (arg_index p) 0 })
store-nul p hi hs = ground arith

write_bytes_below : (buf : ℕ → ℕ) (i j : ℕ) (s : List ℕ) → j < i → write_bytes buf i s j ≡ buf j
write_bytes_below buf i j [] h = refl
write_bytes_below buf i j (c ∷ s) h =
    write_bytes_below (update buf i c) (i + 1) j s (omega arith)
    ∙ update_ne buf i j c (ground arith)

-- A string that was written to a buffer with its NUL is read back.
pub read_string-write_bytes :
    (n : ℕ) (buf : ℕ → ℕ) (i : ℕ) (s : List ℕ)
    → NoNul s
    → length s < n
    → read_string n (update (write_bytes buf i s) (i + length s) 0) i ≡ s
unfolding read_string
read_string-write_bytes zero buf i s hs hl = absurd (omega arith)
read_string-write_bytes (suc n) buf i [] hs hl =
    let a : i + 0 ≡ i = omega arith in rw (a, update_self buf i 0) refl
read_string-write_bytes (suc n) buf i (c ∷ s) hs hl =
    let index : i + 1 + length s ≡ i + suc (length s) = omega arith in
    let first : whole i ≡ c = at_start in
    let nonzero : (c == 0) ≡ false = ground arith in
    let rest : read_string n whole (i + 1) ≡ s =
      ap (λ (k : ℕ). read_string n (update (write_bytes (update buf i c) (i + 1) s) k 0) (i + 1))
        (sym index)
      ∙ read_string-write_bytes n (update buf i c) (i + 1) s hs.1 (omega arith) in
    rw (first, nonzero, rest) refl
  where
    whole : ℕ → ℕ
    whole = update (write_bytes (update buf i c) (i + 1) s) (i + suc (length s)) 0

    at_start : whole i ≡ c
    at_start =
        update_ne (write_bytes (update buf i c) (i + 1) s) (i + suc (length s)) i 0 (ground arith)
        ∙ write_bytes_below (update buf i c) (i + 1) i s (omega arith)
        ∙ update_self buf i c

pub IsWord-NoNul : (s : List ℕ) → IsWord s → NoNul s
IsWord-NoNul [] h = h
IsWord-NoNul (c ∷ s) h = (h.0, IsWord-NoNul s h.2)

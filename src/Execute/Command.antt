-- ===== src/Execute/Command.antt =====
-- What the parsing loop of execute, student-distrib/system_call.c, makes of a command.
use lime_os.Prelude.{
  ℕ, suc, ◌+◌, ◌<◌, ◌≤◌, ◌≡◌, ◌≢◌, refl, ap, ◌∙◌, sym, List, [], ◌∷◌, ◌++◌, length, none, some, ltb,
  ◌==◌, update, arith, true, false, append-nil, Bool-cases, inl, inr,
}
use lime_os.Execute.Parse.{
  Parser, parse_char, parse_loop, parse_command, finish_parse, read_string, write_bytes,
  start_parser, then_do, arg_index,
}
use lime_os.Execute.Phases.{
  NoNul, IsWord, spaces_of, named, name_char, loop_step, parse_name, first_space, arg_char,
  parse_spaces, parse_arg, store-nul, read_string-write_bytes, IsWord-NoNul,
}

-- A command of a name, spaces, and arguments that do not start with a space is taken apart: the buffers
-- then hold the name and the arguments, with all later spaces among them, as strings. The
-- conditions: the name has no space and fewer than 32 bytes, the arguments fewer than 128, and there
-- are at most 4000000000 spaces in between.
pub parse_command-splits :
    (f a : ℕ → ℕ) (name : List ℕ) (n c : ℕ) (arg : List ℕ)
    → IsWord name
    → length name < 32
    → n < 4000000000
    → c ≢ b' '
    → NoNul (c ∷ arg)
    → length (c ∷ arg) < 128
    → (p : Parser) × (parse_command f a (name ++ (spaces_of (suc n) ++ (c ∷ arg))) ≡ some p)
      × (read_string 32 p.file_name 0 ≡ name)
      × (read_string 128 p.local_arg 0 ≡ c ∷ arg)
      × (p.local_arg_start_flag ≡ 1)
unfolding parse_command
parse_command-splits f a name n c arg hw hl hn hc ha hla = (
  p6,
  ap (λ o. then_do o finish_parse) loops ∙ store-nul p5 (omega arith) (ground arith),
  read_string-write_bytes 32 f 0 name (IsWord-NoNul name hw) hl,
  arguments,
  refl,
)
  where
    p1 : Parser
    p1 = named (start_parser f a) name

    p2 : Parser
    p2 = record p1 {
      i = p1.i + 1;
      file_name = update p1.file_name p1.i 0;
      file_length = p1.i;
      spaces = 1;
      end_of_file_name = 2;
    }

    p3 : Parser
    p3 = record p2 { i = p2.i + n; spaces = 1 + n; end_of_file_name = 2 + n }

    p4 : Parser
    p4 = record p3 {
      i = p3.i + 1;
      local_arg = update a (arg_index p3) c;
      end_of_file_name = p3.end_of_file_name + 1;
      local_arg_start_flag = 1;
    }

    p5 : Parser
    p5 = record p4 {
      i = p4.i + length arg;
      local_arg = write_bytes p4.local_arg 1 arg;
      end_of_file_name = p4.end_of_file_name + length arg;
    }

    p6 : Parser
    p6 = record p5 { local_arg = update p5.local_arg (arg_index p5) 0 }

    index3 : arg_index p3 ≡ 0
    index3 = omega arith

    index5 : arg_index p5 ≡ 0 + suc (length arg)
    index5 = omega arith

    arguments : read_string 128 p6.local_arg 0 ≡ c ∷ arg
    arguments =
        ap (λ k. read_string 128 (update (write_bytes (update a k c) 1 arg) (arg_index p5) 0) 0)
          index3
        ∙ ap (λ k. read_string 128 (update (write_bytes (update a 0 c) 1 arg) k 0) 0) index5
        ∙ read_string-write_bytes 128 a 0 (c ∷ arg) ha hla

    loops : parse_loop (start_parser f a) (name ++ (spaces_of (suc n) ++ (c ∷ arg))) ≡ some p5
    loops =
        parse_name (start_parser f a) name (spaces_of (suc n) ++ (c ∷ arg)) hw refl (omega arith)
        ∙ loop_step p1 p2 b' ' (spaces_of n ++ (c ∷ arg)) (omega arith)
            (first_space p1 refl refl refl (omega arith))
        ∙ parse_spaces p2 n (c ∷ arg) refl (omega arith) refl
        ∙ loop_step p3 p4 c arg ha.0
            (arg_char p3 c (ground arith) (omega arith) (ground arith) (omega arith))
        ∙ parse_arg p4 arg 1 ha.1 (ground arith) (omega arith) refl (omega arith) (omega arith)
            (omega arith) (omega arith)

-- A command without a space gives its name and no arguments, if the name has fewer than 32 bytes.
pub parse_command_word :
    (f a : ℕ → ℕ) (name : List ℕ)
    → IsWord name
    → length name < 32
    → (p : Parser) × (parse_command f a name ≡ some p)
      × (read_string 32 p.file_name 0 ≡ name)
      × (p.local_arg_start_flag ≡ 0)
unfolding parse_command parse_loop
parse_command_word f a name hw hl = (
  record p1 { local_arg = update a (arg_index p1) 0; file_name = update p1.file_name p1.i 0 },
  ap (λ s. then_do (parse_loop (start_parser f a) s) finish_parse) (sym (append-nil name))
      ∙ ap (λ o. then_do o finish_parse)
          (parse_name (start_parser f a) name [] hw refl (omega arith))
      ∙ ground arith,
  read_string-write_bytes 32 f 0 name (IsWord-NoNul name hw) hl,
  refl,
)
  where
    p1 : Parser
    p1 = named (start_parser f a) name

long_name :
    (p : Parser) (name rest : List ℕ)
    → IsWord name
    → (p.spaces == 0) ≡ true
    → p.i ≤ 32
    → 32 < p.i + length name
    → parse_loop p (name ++ rest) ≡ none
unfolding parse_loop parse_char
long_name p [] rest hw hs hp hl = absurd (omega arith)
long_name p (c ∷ name) rest hw hs hp hl = elim (Bool-cases (ltb p.i 32)) [
  | inl fits ↦
      loop_step p (record p { file_name = update p.file_name p.i c; i = p.i + 1 }) c (name ++ rest)
        hw.0 (name_char p c hw.1 hs (ground arith))
      ∙ long_name (record p { file_name = update p.file_name p.i c; i = p.i + 1 }) name rest hw.2 hs
          (ground arith) (omega arith)
  | inr full ↦
      let nonzero : (c == 0) ≡ false = ground arith in
      let stop : parse_char p c ≡ none = ground arith in rw (nonzero, stop) refl
]

-- A first word of more than 32 bytes is written past the end of the buffer for the file's name,
-- whatever follows it: no code looks at the length.
pub parse_command_overflow :
    (f a : ℕ → ℕ) (name rest : List ℕ)
    → IsWord name
    → 32 < length name
    → parse_command f a (name ++ rest) ≡ none
unfolding parse_command
parse_command_overflow f a name rest hw hl =
    ap (λ o. then_do o finish_parse)
      (long_name (start_parser f a) name rest hw refl (omega arith) (omega arith))

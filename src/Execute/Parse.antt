-- ===== src/Execute/Parse.antt =====
-- The parsing loop of execute, student-distrib/system_call.c, with its two buffers on the stack.
use lime_os.Prelude.{
  ℕ, zero, suc, ◌+◌, ◌-◌, not, ◌&&◌, ◌||◌, List, [], ◌∷◌, Option, none, some, u32, ltb, ◌==◌,
  if◌then◌else◌, update,
}
use lime_os.Filesystem.{max_name_length}

abbrev pub max_length_arg : ℕ
max_length_arg = 128

-- The locals of execute that the loop changes.
pub record Parser : Type 0 where
  pub i : ℕ
  pub file_name : ℕ → ℕ
  pub local_arg : ℕ → ℕ
  pub file_length : ℕ
  pub spaces : ℕ
  pub end_of_file_name : ℕ
  pub local_arg_start_flag : ℕ

-- `none`: a byte is written past the end of a buffer.
abbrev pub store_name : Parser → ℕ → Option Parser
store_name p c =
    if ltb p.i max_name_length
    then some (record p { file_name = update p.file_name p.i c })
    else none

-- `i - (file_length + spaces)`, in uint32_t.
abbrev pub arg_index : Parser → ℕ
arg_index p = u32 (p.i + 4294967296 - (p.file_length + p.spaces))

abbrev pub store_arg : Parser → ℕ → Option Parser
store_arg p c =
    if ltb (arg_index p) max_length_arg
    then some (record p { local_arg = update p.local_arg (arg_index p) c })
    else none

abbrev pub then_do : {A B : Type 0} → Option A → (A → Option B) → Option B
then_do none f = none
then_do (some a) f = f a

-- `i++`.
abbrev pub advance : Parser → Option Parser
advance p = some (record p { i = p.i + 1 })

-- The two first statements of the else branch.
abbrev pub count_space : Parser → ℕ → Parser
count_space p c =
    let q = record p { end_of_file_name = p.end_of_file_name + 1 } in
    if c == b' ' && p.local_arg_start_flag == 0 then record q { spaces = q.spaces + 1 } else q

abbrev pub end_name : Parser → Option Parser
end_name p =
    if p.end_of_file_name == 1
    then store_name (record p { file_length = p.i; end_of_file_name = 2 }) 0
    else some p

abbrev pub add_arg : Parser → ℕ → Option Parser
add_arg p c =
    if not (c == b' ') || p.local_arg_start_flag == 1
    then store_arg (record p { local_arg_start_flag = 1 }) c
    else some p

-- The body of the loop.
unfoldable pub parse_char : Parser → ℕ → Option Parser
parse_char p c =
    if not (c == b' ') && p.spaces == 0
    then then_do (store_name p c) advance
    else then_do (end_name (count_space p c)) (λ q. then_do (add_arg q c) advance)

-- The loop, up to the NUL.
unfoldable pub parse_loop : Parser → List ℕ → Option Parser
parse_loop p [] = some p
parse_loop p (c ∷ cs) = if c == 0 then some p else then_do (parse_char p c) (λ q. parse_loop q cs)

-- The statements behind the loop.
abbrev pub finish_parse : Parser → Option Parser
finish_parse p = then_do (store_arg p 0) (λ q. if q.spaces == 0 then store_name q 0 else some q)

abbrev pub start_parser : (ℕ → ℕ) → (ℕ → ℕ) → Parser
start_parser file_name local_arg = record {
  i = 0;
  file_name = file_name;
  local_arg = local_arg;
  file_length = 0;
  spaces = 0;
  end_of_file_name = 0;
  local_arg_start_flag = 0;
}

-- The buffers hold anything at first.
unfoldable pub parse_command : (ℕ → ℕ) → (ℕ → ℕ) → List ℕ → Option Parser
parse_command file_name local_arg command =
    then_do (parse_loop (start_parser file_name local_arg) command) finish_parse

-- The string in a buffer of `n` bytes from a place on.
unfoldable pub read_string : ℕ → (ℕ → ℕ) → ℕ → List ℕ
read_string zero buf i = []
read_string (suc n) buf i =
    let rest = read_string n buf (i + 1) in if buf i == 0 then [] else buf i ∷ rest

-- The bytes `s` written from a place on.
abbrev pub write_bytes : (ℕ → ℕ) → ℕ → List ℕ → ℕ → ℕ
write_bytes buf i [] = buf
write_bytes buf i (c ∷ s) = write_bytes (update buf i c) (i + 1) s

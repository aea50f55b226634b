-- ===== src/Strings.antt =====
-- The string functions of student-distrib/lib.c, and their copies in syscalls/ece391support.c. A string
-- is the list of its bytes before the terminating '\0'; an array of bytes is a list as well.
pub mod Compare
pub mod Copy
pub mod Reverse
pub mod Number
mod Tests
use lime_os.Prelude.{
  ℕ, zero, suc, ◌+◌, ◌-◌, ◌*◌, ◌/◌, ◌%◌, ◌<◌, Bool, true, false, not, ◌&&◌, ◌||◌, List, [], ◌∷◌,
  ◌++◌, Option, none, some, length, get_or, set, u32, minus_one, lt_signed, ltb, leb, ◌==◌,
  if◌then◌else◌,
}

-- `s[i]` of a string: past its last byte stands the '\0'.
abbrev pub char_at : List ℕ → ℕ → ℕ
char_at s i = get_or s i 0

-- The loop of strlen counts until it reads '\0'.
unfoldable pub strlen : List ℕ → ℕ
strlen [] = 0
strlen (c ∷ s) = let rest = strlen s in if c == 0 then 0 else rest + 1

-- An int8_t as a bit pattern of 32 bits.
abbrev pub sign_extend : ℕ → ℕ
sign_extend c = if ltb c 128 then c else c + 4294967040

-- `s1[i] - s2[i]` as an int32_t.
abbrev pub char_difference : ℕ → ℕ → ℕ
char_difference a b = u32 (sign_extend a + (4294967296 - sign_extend b))

-- The loop of strncmp from `i` on; the first number counts the rounds left.
compare_from : ℕ → ℕ → List ℕ → List ℕ → ℕ
compare_from zero i s1 s2 = 0
compare_from (suc n) i s1 s2 =
    let rest = compare_from n (i + 1) s1 s2 in
    if not (char_at s1 i == char_at s2 i) || char_at s1 i == 0
    then char_difference (char_at s1 i) (char_at s2 i)
    else rest

unfoldable pub strncmp : List ℕ → List ℕ → ℕ → ℕ
unfolding compare_from
strncmp s1 s2 n = compare_from n 0 s1 s2

-- The bytes that strcpy writes to `dest`: the string and its '\0'.
unfoldable pub strcpy : List ℕ → List ℕ
strcpy [] = 0 ∷ []
strcpy (c ∷ src) = let rest = strcpy src in if c == 0 then 0 ∷ [] else c ∷ rest

-- The second loop of strncpy.
abbrev pub zeros : ℕ → List ℕ
zeros zero = []
zeros (suc n) = 0 ∷ zeros n

-- The `n` bytes that strncpy writes.
unfoldable pub strncpy : List ℕ → ℕ → List ℕ
strncpy src zero = []
strncpy [] (suc n) = zeros (suc n)
strncpy (c ∷ src) (suc n) = let rest = strncpy src n in if c == 0 then zeros (suc n) else c ∷ rest

-- The loop of strrev over `beg` and `end`: a round swaps two bytes. `fuel` bounds the rounds.
reverse_from : ℕ → ℕ → ℕ → List ℕ → List ℕ
reverse_from zero beg end s = s
reverse_from (suc f) beg end s =
    let swapped = set (set s end (get_or s beg 0)) beg (get_or s end 0) in
    let rest = reverse_from f (beg + 1) (end - 1) swapped in if ltb beg end then rest else s

-- `end` is an int32_t that starts at -1 for the empty string; the loop then makes no round.
unfoldable pub strrev : List ℕ → List ℕ
unfolding reverse_from
strrev s = if length s == 0 then s else reverse_from (length s) 0 (length s - 1) s

-- `lookup[i]`: 36 characters and the '\0' that ends them. From 37 on C reads past the array and 0 is a filler, which
-- no radix up to 37 reaches; the code prints in radix 10 and 16.
unfoldable pub lookup_digit : ℕ → ℕ
lookup_digit i = if ltb i 10 then b'0' + i else if ltb i 36 then b'A' + (i - 10) else 0

-- The loop over `newval`: the digits, lowest place first.
unfoldable pub digits_from : ℕ → ℕ → ℕ → List ℕ
digits_from zero radix newval = []
digits_from (suc f) radix newval =
    let rest = digits_from f radix (newval / radix) in
    if newval == 0 then [] else lookup_digit (newval % radix) ∷ rest

-- The string that itoa leaves in `buf`; 33 rounds are enough for a word and a radix from 2 on; above 36 the
-- digits are no longer all in `lookup`.
unfoldable pub itoa : ℕ → ℕ → List ℕ
itoa value radix = if value == 0 then b'0' ∷ [] else strrev (digits_from 33 radix value)

-- One argument of printf.
pub data Arg : Type 0 where
  number : ℕ → Arg
  text : List ℕ → Arg

abbrev pub arg_number : List Arg → ℕ
arg_number (number n ∷ args) = n
arg_number args = 0

abbrev pub arg_text : List Arg → List ℕ
arg_text (text s ∷ args) = s
arg_text args = []

abbrev pub rest_args : List Arg → List Arg
rest_args [] = []
rest_args (a ∷ args) = args

pad_zeros : ℕ → List ℕ → List ℕ
pad_zeros zero s = s
pad_zeros (suc k) s = b'0' ∷ pad_zeros k s

-- `%#x`: eight digits, filled up with '0' from the left.
unfoldable pub padded_hex : ℕ → List ℕ
unfolding pad_zeros
padded_hex n = pad_zeros (8 - length (itoa n 16)) (itoa n 16)

-- `%d`.
unfoldable pub signed_decimal : ℕ → List ℕ
signed_decimal n = if lt_signed n 0 then b'-' ∷ itoa (4294967296 - n) 10 else itoa n 10

-- What one conversion prints, and the arguments that it leaves.
convert : ℕ → Bool → List Arg → List ℕ × List Arg
convert c alternate args =
    if c == b'%'
    then (b'%' ∷ [], args)
    else if c == b'x'
    then (
      if alternate then padded_hex (arg_number args) else itoa (arg_number args) 16,
      rest_args args,
    )
    else if c == b'u'
    then (itoa (arg_number args) 10, rest_args args)
    else if c == b'd'
    then (signed_decimal (arg_number args), rest_args args)
    else if c == b'c'
    then (arg_number args % 256 ∷ [], rest_args args)
    else if c == b's'
    then (arg_text args, rest_args args)
    else ([], args)

-- Where printf stands in the format: in plain text, or behind a '%' with its `alternate`.
pub data Mode : Type 0 where
  plain : Mode
  spec : Bool → Mode

abbrev emit : List ℕ → Option (List ℕ) → Option (List ℕ)
emit s none = none
emit s (some r) = some (s ++ r)

-- `none`: a '%' at the end of the format lets `buf` run past the '\0'.
print_from : Mode → List ℕ → List Arg → Option (List ℕ)
print_from plain [] args = some []
print_from (spec alternate) [] args = none
print_from plain (c ∷ format) args =
    let conversion = print_from (spec false) format args in
    let literal = print_from plain format args in
    if c == b'%' then conversion else emit (c ∷ []) literal
print_from (spec alternate) (c ∷ format) args =
    let again = print_from (spec true) format args in
    let (s, left) = convert c alternate args in
    let after = print_from plain format left in if c == b'#' then again else emit s after

-- The characters that printf puts on the screen behind its first test, and its result.
unfoldable pub printf : List ℕ → List Arg → Option (List ℕ) × ℕ
unfolding print_from convert
printf format args = (print_from plain format args, length format)

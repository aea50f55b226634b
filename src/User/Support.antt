-- ===== src/User/Support.antt =====
-- The string functions of syscalls/ece391support.c. A string is the list of its bytes before the '\0'; itoa and
-- strrev are those of the kernel.
use lime_os.Prelude.{ℕ, ◌+◌, ◌-◌, ◌||◌, List, [], ◌∷◌, ◌==◌, u32, if◌then◌else◌}

unfoldable pub ece391_strlen : List ℕ → ℕ
ece391_strlen [] = 0
ece391_strlen (c ∷ s) = let rest = ece391_strlen s in if c == 0 then 0 else rest + 1

-- The bytes that are written to `dst`.
unfoldable pub ece391_strcpy : List ℕ → List ℕ
ece391_strcpy [] = 0 ∷ []
ece391_strcpy (c ∷ s) = let rest = ece391_strcpy s in if c == 0 then 0 ∷ [] else c ∷ rest

-- `((int32_t)*s1) - ((int32_t)*s2)` of two uint8_t.
abbrev pub byte_difference : ℕ → ℕ → ℕ
byte_difference c d = u32 (c + 4294967296 - d)

unfoldable pub ece391_strcmp : List ℕ → List ℕ → ℕ
ece391_strcmp [] [] = 0
ece391_strcmp [] (d ∷ t) = byte_difference 0 d
ece391_strcmp (c ∷ s) [] = byte_difference c 0
ece391_strcmp (c ∷ s) (d ∷ t) =
    let rest = ece391_strcmp s t in
    if c == d then (if c == 0 then 0 else rest) else byte_difference c d

-- The loop; the number is `n`, which is not 0 at the loop's test.
strncmp_loop : ℕ → List ℕ → List ℕ → ℕ
strncmp_loop n [] [] = 0
strncmp_loop n [] (d ∷ t) = byte_difference 0 d
strncmp_loop n (c ∷ s) [] = byte_difference c 0
strncmp_loop n (c ∷ s) (d ∷ t) =
    let rest = strncmp_loop (n - 1) s t in
    if c == d then (if c == 0 || n - 1 == 0 then 0 else rest) else byte_difference c d

unfoldable pub ece391_strncmp : List ℕ → List ℕ → ℕ → ℕ
unfolding strncmp_loop
ece391_strncmp s1 s2 n = if n == 0 then 0 else strncmp_loop n s1 s2

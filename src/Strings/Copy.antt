-- ===== src/Strings/Copy.antt =====
-- What strcpy and strncpy write.
use lime_os.Prelude.{ℕ, zero, suc, ◌-◌, ◌≡◌, refl, List, [], ◌∷◌, ◌++◌, length, take, arith}
use lime_os.Strings.{strlen, strcpy, strncpy, zeros}
use lime_os.Strings.Compare.{IsString}

pub strlen-length : (s : List ℕ) → IsString s → strlen s ≡ length s
unfolding strlen
strlen-length [] h = refl
strlen-length (c ∷ s) h = ground (arith, strlen-length s h.2)

-- strcpy writes the string and a '\0'.
pub strcpy-append : (s : List ℕ) → IsString s → strcpy s ≡ s ++ 0 ∷ []
unfolding strcpy
strcpy-append [] h = refl
strcpy-append (c ∷ s) h = ground (arith, strcpy-append s h.2)

-- strncpy writes the first `n` bytes of the string and fills up with '\0's, `n` bytes in all: there is
-- a '\0' among them only if the string is shorter than `n`.
pub strncpy-take :
    (s : List ℕ) (n : ℕ) → IsString s → strncpy s n ≡ take n s ++ zeros (n - length s)
unfolding strncpy
strncpy-take s zero h = let e : 0 - length s ≡ 0 = omega arith in rw e
strncpy-take [] (suc n) h = let e : suc n - 0 ≡ suc n = omega arith in rw e
strncpy-take (c ∷ s) (suc n) h =
    let e : suc n - suc (length s) ≡ n - length s = omega arith in
    rw e (ground (arith, strncpy-take s n h.2))

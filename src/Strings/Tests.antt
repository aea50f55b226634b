-- ===== src/Strings/Tests.antt =====
-- The theorems on strings and numbers at short strings.
use lime_os.Prelude.{ℕ, ◌≡◌, ◌↔◌, take, List, [], ◌∷◌, arith}
use mathlib.Core.List.{reverse}
use lime_os.Strings.{strncmp, strrev, itoa}
use lime_os.Strings.Compare.{IsString, strncmp-take}
use lime_os.Strings.Reverse.{strrev-reverse}
use lime_os.Strings.Number.{value_of, itoa-value_of}

abbrev cat : List ℕ
cat = b'c' ∷ b'a' ∷ b't' ∷ []

abbrev cart : List ℕ
cart = b'c' ∷ b'a' ∷ b'r' ∷ b't' ∷ []

cat-IsString : IsString cat
cat-IsString =
    (omega arith, omega arith, (omega arith, omega arith, (omega arith, omega arith, tt)))

cart-IsString : IsString cart
cart-IsString = (
  omega arith,
  omega arith,
  (omega arith, omega arith, (omega arith, omega arith, (omega arith, omega arith, tt))),
)

strncmp-take_example : (strncmp cat cart 2 ≡ 0) ↔ (take 2 cat ≡ take 2 cart)
strncmp-take_example = strncmp-take cat cart 2 cat-IsString cart-IsString

strrev-reverse_example : strrev cart ≡ reverse cart
strrev-reverse_example = strrev-reverse cart

itoa-value_of_example : value_of 16 0 (itoa 48879 16) ≡ 48879
itoa-value_of_example = itoa-value_of 48879 16 (omega arith) (omega arith) (omega arith)

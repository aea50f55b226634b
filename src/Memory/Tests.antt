-- ===== src/Memory/Tests.antt =====
-- The fills and moves of memory on small regions.
use lime_os.Prelude.{ℕ, ◌%◌, ◌≡◌}
use lime_os.Console.Memcpy.{copied}
use lime_os.Memory.{memset, memmove}
use lime_os.Memory.Fill.{filled, memset_lem}
use lime_os.Memory.Move.{memmove_lem}

abbrev numbered : ℕ → ℕ
numbered a = a % 256

memset_lem_example : memset numbered 3 511 9 ≡ filled numbered 3 (λ k. 255) 9
memset_lem_example = memset_lem numbered 3 511 9

memmove_lem_example : memmove numbered 12 10 6 ≡ copied numbered 12 10 6
memmove_lem_example = memmove_lem numbered 12 10 6

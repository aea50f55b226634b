-- ===== src/Pic/Tests.antt =====
-- The theorems on the interrupt controllers at the masks that the kernel starts from.
use lime_os.Prelude.{arith}
use lime_os.Pic.Masks.{AreBytes}
use lime_os.Samples.{pic}

pic-AreBytes : AreBytes pic
pic-AreBytes = record { master_byte = omega arith; slave_byte = omega arith }

-- ===== src/Paging/Tests.antt =====
-- The page tables at addresses that a loader could choose.
use lime_os.Prelude.{◌≡◌, refl, arith}
use lime_os.Paging.{Tables, Places, init_paging}
use lime_os.Paging.Walk.{IsPlaced, walk, mapped, init_paging-walk}

abbrev places : Places
places = record { pdt_addr = 0x410000; pt0_addr = 0x411000; pt1_addr = 0x412000 }

abbrev uncleared : Tables
uncleared = record { pdt = λ i. i; pt0 = λ i. i; pt1 = λ i. i; cr0 = 0x11; cr3 = 0; cr4 = 0 }

places-IsPlaced : IsPlaced places
places-IsPlaced = record { aligned0 = refl; aligned1 = refl; apart = omega arith }

init_paging-walk_example : walk places (init_paging places uncleared) 0x6401234 ≡ mapped 0x6401234
init_paging-walk_example = init_paging-walk places uncleared places-IsPlaced 0x6401234 (omega arith)

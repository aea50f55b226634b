-- ===== src/Filesystem/Tests.antt =====
-- The theorems on the file system at a small image.
use lime_os.Prelude.{◌-◌, ◌≡◌, refl, min, [], ◌∷◌, arith}
use lime_os.Filesystem.{
  dentry_count, inode_length, inode_address, rounds, read_data, read_dentry_by_name,
}
use lime_os.Filesystem.Contents.{slice, read_data_lem}
use lime_os.Filesystem.Names.{Finds, read_dentry_by_name-Finds}
use lime_os.Samples.{image}

image-length : inode_length image 0 ≡ 5
unfolding inode_length inode_address
image-length = refl

read_data_lem_example :
    read_data image 0 1 3
    ≡ (min 3 (inode_length image 0 - 1), slice image 0 1 (min 3 (inode_length image 0 - 1)))
read_data_lem_example = read_data_lem image 0 (omega (arith, image-length)) 1 3 (omega arith)

read_dentry_by_name-Finds_example :
    Finds image (b'a' ∷ []) 0 (rounds (dentry_count image)) (read_dentry_by_name image (b'a' ∷ []))
read_dentry_by_name-Finds_example =
    read_dentry_by_name-Finds image (b'a' ∷ []) (omega arith, omega arith, tt)

-- ===== src/User/Syserr/Tests.antt =====
-- A kernel whose file system holds nothing but its directory, and a user who types 0.
use lime_os.Prelude.{ℕ, ◌≡◌, refl, false, [], ◌∷◌, ◌==◌, ◌||◌, if◌then◌else◌, arith}
use lime_os.Strings.{strncmp}
use lime_os.Filesystem.{Fs, dentry_at, dentry_count, name_matches, read_dentry_by_name}
use lime_os.Process.{Kernel, fresh_entries, freed}
use lime_os.Syscall.{finish_terminal_read, take_line}
use lime_os.Syscall.Fds.{==-false}
use lime_os.User.{World, done}
use lime_os.User.Syserr.{syserr_main}
use lime_os.User.Syserr.Fresh.{Stands}
use lime_os.User.Syserr.Run.{HasNames, Types, syserr_main-Passes}
use lime_os.Samples.{kernel, stack}

-- One entry, "." of type 1.
abbrev dot_byte : ℕ → ℕ
dot_byte a = if a == 0 || a == 96 then 1 else if a == 64 then b'.' else 0

abbrev dot_image : Fs
dot_image = record { mem = dot_byte; fs_start = 0; dentry_table_flags = λ _. 0 }

abbrev dot_kernel : Kernel
dot_kernel = record kernel { fs = dot_image }

abbrev types_zero : Kernel → Kernel
types_zero k =
    let b = k.keyboard in
    record k {
      keyboard = record b {
        command_buf = λ _ i. if i == 0 then b'0' else b'\n';
        t_enter_flag = λ _. 1;
      };
    }

abbrev one_user : World
one_user = record {
  on_enter = types_zero;
  on_clock = λ k. k;
  run_child = λ k. done 0 k;
  execute_stack = stack;
  numbered = λ _ k. done 0 k;
}

names : HasNames dot_image (dentry_at dot_image 0)
unfolding read_dentry_by_name dentry_count dentry_at name_matches strncmp
names = record {
  dot_there = refl;
  dot_directory = refl;
  no_helloo = refl;
  no_shel = refl;
  no_empty = refl;
}

types : Types one_user dot_image 2 (b'0' ∷ b'\n' ∷ [])
unfolding finish_terminal_read take_line
types = record {
  keeps_table = λ k h. record {
    same_fs = h.same_fs;
    stdin_open = h.stdin_open;
    stdout_open = h.stdout_open;
    opened_here = h.opened_here;
    freed_there = h.freed_there;
  };
  brings_line = λ k h. refl;
}

free_file : (fd : ℕ) → (fd == 0) ≡ false → (fd == 1) ≡ false → fresh_entries fd ≡ freed
free_file fd h0 h1 = rw (h0, h1) refl

dot_kernel-Stands : Stands dot_image 2 2 dot_kernel
dot_kernel-Stands = record {
  same_fs = refl;
  stdin_open = (refl, refl);
  stdout_open = (refl, refl);
  opened_here = λ fd l u. absurd (omega arith);
  freed_there =
      λ fd l u o. free_file fd (==-false fd 0 (omega arith)) (==-false fd 1 (omega arith));
}

syserr_main-Passes_example :
    (r : Kernel) × (syserr_main one_user [] dot_kernel ≡ done 0 r) × Stands dot_image 2 2 r
syserr_main-Passes_example =
    syserr_main-Passes one_user [] dot_image (dentry_at dot_image 0) 2 (b'\n' ∷ []) dot_kernel names
      (omega arith) types dot_kernel-Stands

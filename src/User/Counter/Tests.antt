-- ===== src/User/Counter/Tests.antt =====
-- The counter at the sample kernel, when "0" is typed.
use lime_os.Prelude.{◌≡◌, refl, [], ◌∷◌, ◌==◌, if◌then◌else◌, arith}
use lime_os.Process.{Kernel}
use lime_os.Syscall.{read, finish_terminal_read, take_line}
use lime_os.Syscall.Written.{written}
use lime_os.User.{World, done, ece391_read}
use lime_os.User.Texts
use lime_os.User.Cat.Reads.{shown}
use lime_os.User.Counter.{counter_main}
use lime_os.User.Counter.Counts.{answer, counter_main-answers}
use lime_os.Samples.{kernel, stack}

abbrev typed_zero : Kernel
typed_zero =
    let b = kernel.keyboard in
    record kernel {
      keyboard = record b {
        command_buf = λ _ i. if i == 0 then b'0' else b'\n';
        t_enter_flag = λ _. 1;
      };
    }

abbrev one_user : World
one_user = record {
  on_enter = λ k. typed_zero;
  on_clock = λ k. k;
  run_child = λ k. done 0 k;
  execute_stack = stack;
  numbered = λ _ k. done 0 k;
}

reads :
    ece391_read one_user 0 1023 (written kernel Texts.choose_test)
    ≡ done (2, b'0' ∷ b'\n' ∷ []) typed_zero
unfolding ece391_read read finish_terminal_read take_line
reads = refl

counter_main-answers_example :
    counter_main one_user kernel ≡ done 0 (shown typed_zero (answer b'0'))
counter_main-answers_example =
    counter_main-answers one_user kernel typed_zero b'0' (refl, refl) (refl, refl) (omega arith)
      reads

-- ===== src/Os/Kernel.antt =====
-- `kmain`: src/maps-os/kernel/kernel.c. `user_main` is the program that is linked in, and the three
-- texts are the addresses of the string literals.
use maps.Prelude.{ℕ, ◌==◌, if◌then◌else◌}
use maps.Bus.{Bus}
use maps.Os.Console.{console_write_cstr}
use maps.Runtime.Access.{M, pure, ◌>>=◌, ◌>>◌}

unfoldable pub kmain : Bus → (boot_text done_text failed_text : ℕ) → M ℕ → M ℕ
kmain bus boot_text done_text failed_text user_main = do
  console_write_cstr bus boot_text
  rc ← user_main
  console_write_cstr bus (if rc == 0 then done_text else failed_text)
  pure rc

-- ===== src/Os/Syscall.antt =====
-- The system calls of the operating system: src/maps-os/kernel/syscall.c.
use maps.Prelude.{ℕ, ◌==◌, if◌then◌else◌}
use maps.Bus.{Bus}
use maps.Os.Console.{console_write}
use maps.Os.Npu.{npu_submit}
use maps.Runtime.Access.{M, pure, ◌>>◌}
use maps.Runtime.Driver.{minus}

abbrev pub syscall_exit : ℕ
syscall_exit = 0

abbrev pub syscall_write : ℕ
syscall_write = 1

abbrev pub syscall_npu_submit : ℕ
syscall_npu_submit = 2

-- `os_syscall_dispatch`; no call uses `arg2`.
unfoldable pub syscall_dispatch : Bus → (number arg0 arg1 arg2 : ℕ) → M ℕ
syscall_dispatch bus number arg0 arg1 arg2 =
    if number == syscall_exit
    then pure arg0
    else if number == syscall_write
    then (do console_write bus arg0 arg1; pure arg1)
    else if number == syscall_npu_submit
    then npu_submit bus arg0
    else pure (minus 1)

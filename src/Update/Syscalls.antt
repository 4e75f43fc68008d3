-- ===== src/Update/Syscalls.antt =====
-- src/nvc_ldcache.c: the system calls that limit_syscalls allows, on x86_64.
use libxdxgpu_container.Base.{List, [], ◌∷◌}
use libxdxgpu_container.Libc.{Bytes, codes}

abbrev pub allowed_syscalls : List Bytes
allowed_syscalls =
    codes "access"
    ∷ codes "arch_prctl"
    ∷ codes "brk"
    ∷ codes "chdir"
    ∷ codes "chmod"
    ∷ codes "close"
    ∷ codes "execve"
    ∷ codes "execveat"
    ∷ codes "exit"
    ∷ codes "exit_group"
    ∷ codes "fcntl"
    ∷ codes "fdatasync"
    ∷ codes "fstat"
    ∷ codes "fsync"
    ∷ codes "ftruncate"
    ∷ codes "getcwd"
    ∷ codes "getdents"
    ∷ codes "getdents64"
    ∷ codes "getegid"
    ∷ codes "geteuid"
    ∷ codes "getgid"
    ∷ codes "getpgrp"
    ∷ codes "getpid"
    ∷ codes "gettid"
    ∷ codes "gettimeofday"
    ∷ codes "getuid"
    ∷ codes "_llseek"
    ∷ codes "lseek"
    ∷ codes "lstat"
    ∷ codes "mkdir"
    ∷ codes "mmap"
    ∷ codes "mprotect"
    ∷ codes "mremap"
    ∷ codes "munmap"
    ∷ codes "newfstatat"
    ∷ codes "open"
    ∷ codes "openat"
    ∷ codes "pread64"
    ∷ codes "read"
    ∷ codes "readlink"
    ∷ codes "readv"
    ∷ codes "rename"
    ∷ codes "rt_sigaction"
    ∷ codes "rt_sigprocmask"
    ∷ codes "rt_sigreturn"
    ∷ codes "stat"
    ∷ codes "symlink"
    ∷ codes "tgkill"
    ∷ codes "time"
    ∷ codes "uname"
    ∷ codes "unlink"
    ∷ codes "write"
    ∷ codes "writev"
    ∷ []

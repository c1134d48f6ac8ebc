-- ===== src/Errno.antt =====
-- The error numbers of src/kern/error.h, and the result of a C function that returns a count or a
-- negative error number.
use operating_systems_final.Prelude.{ℕ}

pub data Errno : Type 0 where
  einval ebusy enotsup enodev eio ebadfmt enoent eaccess ebadfd emfile : Errno

-- `done n` is the count n, `fail e` the number -e.
pub data Reply : Type 0 where
  done : ℕ → Reply
  fail : Errno → Reply

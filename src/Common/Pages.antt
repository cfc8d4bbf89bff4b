-- ===== src/Common/Pages.antt =====
-- The memory pages of <sys/mman.h>, here of 4096 bytes.
use Prim.Native.Nat.{ℕ, ◌+◌, ◌*◌, ◌/◌}

-- How many bytes `mmap` gives for a length: whole pages.
abbrev pub whole_pages : ℕ → ℕ
whole_pages n = (n + 4095) / 4096 * 4096

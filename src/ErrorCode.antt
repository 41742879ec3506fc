-- ===== src/ErrorCode.antt =====
-- include/hs/common.h: `enum hs_error_code`, as the ints that the functions return.
use libhs.Base.{ℤ, negsuc}

abbrev pub memory : ℤ
memory = negsuc 0

abbrev pub not_found : ℤ
not_found = negsuc 1

abbrev pub access : ℤ
access = negsuc 2

abbrev pub io : ℤ
io = negsuc 3

abbrev pub system : ℤ
system = negsuc 4

abbrev pub invalid : ℤ
invalid = negsuc 5

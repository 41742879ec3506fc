-- ===== src/Common/Tests.antt =====
-- The theorems on the mask stack at a log whose handler is the client's and which masks one code.
use libhs.Base.{◌≡◌, refl, none, some, [], ℤ, pos, replicate, false, set, arith}
use libhs.ErrorCode
use libhs.Common.{Log, redirected, error, error_mask, error_unmask}
use libhs.Common.Mask.{IsValid, stack, has_code, error_mask-scope}

abbrev masking : Log
masking = record {
  handler = redirected 7 8;
  mask = set (replicate 32 (pos 0)) 0 ErrorCode.access;
  mask_count = 1;
  debug_env = false;
  events = [];
}

masking-IsValid : IsValid masking
masking-IsValid = record { cells = refl; within = omega arith }

abbrev masking_twice : Log
masking_twice = record masking { mask = set masking.mask 1 ErrorCode.not_found; mask_count = 2 }

error_mask-scope_example :
    (error ErrorCode.not_found none masking_twice ≡ (ErrorCode.not_found, masking_twice))
    × (u : Log) × (error_unmask masking_twice ≡ some u)
    × ((e : ℤ) → has_code e (stack u) ≡ has_code e (stack masking))
unfolding error_mask
error_mask-scope_example = error_mask-scope ErrorCode.not_found none masking-IsValid refl

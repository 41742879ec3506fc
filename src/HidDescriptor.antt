-- ===== src/HidDescriptor.antt =====
-- `parse_descriptor` of src/hid_linux.c: the scan of a HID report descriptor for the primary usage.
-- The report is the list of the `report->size` bytes that the kernel gave; a read past them is a
-- `none`, and so is fuel that runs out. Sizes and indices stay far below their widths, since the
-- kernel gives at most 4096 bytes.
pub mod Items
pub mod Total
pub mod Meaning
mod Tests
use libhs.Base.{
  ℕ, zero, suc, ◌+◌, ◌-◌, ◌*◌, ◌/◌, ◌%◌, ◌^◌, Bool, true, false, Option, none, some, List, ◌==◌,
  if◌then◌else◌, ltb, leb, ◌>>=◌, get_elem?, length,
}

-- The fields of `struct hs_handle` that the scan fills.
pub record Usage : Type 0 where
  pub numbered_reports : Bool
  pub usage_page : ℕ
  pub usage : ℕ

abbrev pub no_usage : Usage
no_usage = record { numbered_reports = false; usage_page = 0; usage = 0 }

-- The data bytes behind the prefix at `i`, little endian.
read_data : List ℕ → (i size : ℕ) → Option ℕ
read_data value i zero = some 0
read_data value i (suc zero) = get_elem? value (i + 1)
read_data value i (suc (suc zero)) = do
  b2 ← get_elem? value (i + 2)
  b1 ← get_elem? value (i + 1)
  some (b2 * 256 + b1)
read_data value i (suc (suc (suc zero))) = some 0
read_data value i (suc (suc (suc (suc size)))) = do
  b4 ← get_elem? value (i + 4)
  b3 ← get_elem? value (i + 3)
  b2 ← get_elem? value (i + 2)
  b1 ← get_elem? value (i + 1)
  some ((b4 * 16777216 + b3 * 65536 + b2 * 256 + b1) % 2 ^ 32)

-- `switch (type)`, on the depth and the handle.
pub interpret : (type word : ℕ) → ℕ × Usage → ℕ × Usage
interpret type word (depth, h) =
    if type == 0xA0
    then ((depth + 1) % 2 ^ 32, h)
    else if type == 0xC0
    then ((depth + 2 ^ 32 - 1) % 2 ^ 32, h)
    else if type == 0x84
    then (depth, record h { numbered_reports = true })
    else if type == 0x04
    then (depth, if depth == 0 then record h { usage_page = word % 2 ^ 16 } else h)
    else if type == 0x08
    then (depth, if depth == 0 then record h { usage = word % 2 ^ 16 } else h)
    else (depth, h)

-- `size` of a short item, from its prefix.
data_size : ℕ → ℕ
data_size type = if type % 4 == 3 then 4 else type % 4

-- The loop at index `i`, with the variable `size` of the round before.
parse_loop : (fuel i size : ℕ) → List ℕ → ℕ × Usage → Option Usage
unfolding read_data interpret data_size
parse_loop zero i size value s = if ltb i (length value) then none else some s.1
parse_loop (suc fuel) i size value s =
    if ltb i (length value)
    then (get_elem? value i >>= λ type.
        if type == 0xFE
        then ((if ltb (i + 1) (length value)
              then (get_elem? value (i + 1) >>= λ n. some (n + 2))
              else some size)
            >>= λ size'. parse_loop fuel (i + (size' + 1)) size' value s)
        else if leb (length value) (i + data_size type)
        then some s.1
        else (read_data value i (data_size type) >>= λ word.
            parse_loop fuel (i + (data_size type + 1)) (data_size type) value
              (interpret (type / 4 * 4) word s)))
    else some s.1

-- `collection_depth` and `size` start at 0; each round moves `i` on, so the length is fuel
-- enough.
unfoldable pub parse_descriptor : List ℕ → Usage → Option Usage
unfolding parse_loop
parse_descriptor value h = parse_loop (length value) 0 0 value (0, h)

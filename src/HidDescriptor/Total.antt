-- ===== src/HidDescriptor/Total.antt =====
-- The scan of any report ends, and reads only bytes of the report.
use libhs.Base.{
  ℕ, zero, suc, ◌+◌, ◌≤◌, ◌<◌, ◌≡◌, ◌*◌, ◌/◌, ◌%◌, refl, ◌^◌, some, List, ◌==◌, ltb, leb, get_or,
  get_elem?-eq-get_or, length, le→ltb, arith, Bool-cases, inl, inr,
}
use libhs.HidDescriptor.{Usage, read_data, interpret, data_size, parse_loop, parse_descriptor}

read_data-in_range :
    (value : List ℕ) (i size : ℕ)
    → size ≤ 4
    → i + size < length value
    → (word : ℕ) × (read_data value i size ≡ some word)
unfolding read_data
read_data-in_range value i zero h fit = (0, refl)
read_data-in_range value i (suc zero) h fit = (_, get_elem?-eq-get_or value (i + 1) 0 fit)
read_data-in_range value i (suc (suc zero)) h fit = (
  get_or value (i + 2) 0 * 256 + get_or value (i + 1) 0,
  rw (get_elem?-eq-get_or value (i + 2) 0 fit, get_elem?-eq-get_or value (i + 1) 0 (omega arith)),
)
read_data-in_range value i (suc (suc (suc zero))) h fit = (0, refl)
read_data-in_range value i (suc (suc (suc (suc size)))) h fit = (
  (get_or value (i + 4) 0 * 16777216
        + get_or value (i + 3) 0 * 65536
        + get_or value (i + 2) 0 * 256
        + get_or value (i + 1) 0)
      % 2 ^ 32,
  rw (
    get_elem?-eq-get_or value (i + 4) 0 (omega arith),
    get_elem?-eq-get_or value (i + 3) 0 (omega arith),
    get_elem?-eq-get_or value (i + 2) 0 (omega arith),
    get_elem?-eq-get_or value (i + 1) 0 (omega arith),
  ),
)

data_size-le : (type : ℕ) → data_size type ≤ 4
unfolding data_size
data_size-le type = ground arith

parse_loop-total :
    (fuel i size : ℕ) (value : List ℕ) (s : ℕ × Usage)
    → length value ≤ i + fuel
    → (h : Usage) × (parse_loop fuel i size value s ≡ some h)
unfolding parse_loop
parse_loop-total zero i size value s h = (s.1, rw (le→ltb i (length value) (omega arith)))
parse_loop-total (suc fuel) i size value s h = elim (Bool-cases (ltb i (length value))) [
  | inr done ↦ (s.1, rw done)
  | inl more ↦
      let type = get_or value i 0 in
      let read = get_elem?-eq-get_or value i 0 (ground arith) in
      elim (Bool-cases (type == 0xFE)) [
        | inl is_long ↦ elim (Bool-cases (ltb (i + 1) (length value))) [
          | inl sized ↦
              let n = get_or value (i + 1) 0 in
              let (u, r) = parse_loop-total fuel (i + (n + 2 + 1)) (n + 2) value s (omega arith) in
              (
                u,
                rw (more, read, is_long, sized, get_elem?-eq-get_or value (i + 1) 0 (ground arith))
                    r,
              )
          | inr cut ↦
              let (u, r) = parse_loop-total fuel (i + (size + 1)) size value s (omega arith) in
              (u, rw (more, read, is_long, cut) r)
        ]
        | inr is_short ↦ elim (Bool-cases (leb (length value) (i + data_size type))) [
          | inl cut ↦ (s.1, rw (more, read, is_short, cut))
          | inr whole ↦
              let (word, e) =
                read_data-in_range value i (data_size type) (data_size-le type) (ground arith) in
              let (u, r) =
                parse_loop-total fuel (i + (data_size type + 1)) (data_size type) value
                  (interpret (type / 4 * 4) word s) (omega arith) in
              (u, rw (more, read, is_short, whole, e) r)
        ]
      ]
]

-- Whatever bytes the report holds, the scan ends with a result, and it never reads a byte behind the
-- report's end.
pub parse_descriptor-total :
    (value : List ℕ) (h : Usage) → (u : Usage) × (parse_descriptor value h ≡ some u)
unfolding parse_descriptor
parse_descriptor-total value h = parse_loop-total (length value) 0 0 value (0, h) (omega arith)

-- ===== src/HidDescriptor/Meaning.antt =====
-- The scan of an encoded sequence of items gives what the items say.
use mathlib.Core.List.{append_assoc, append-nil}
use libhs.Base.{
  ℕ, zero, suc, ◌+◌, ◌*◌, ◌/◌, ◌≤◌, ◌<◌, ◌≡◌, ◌≢◌, refl, ap, ◌∙◌, Bool, false, ◌&&◌, ◌||◌, ◌==◌,
  ◌%◌, ◌^◌, if◌then◌else◌, some, List, [], ◌∷◌, ◌++◌, ==-of_ne, leb, lt→ltb, le→ltb, get_elem?,
  get_elem?-behind, length, length-append, All, arith,
}
use libhs.HidDescriptor.{Usage, interpret, read_data, data_size, parse_loop, parse_descriptor}
use libhs.HidDescriptor.Items.{
  Item, short, long, Payload, none0, one, two, four, size_code, payload_bytes, word, bytes, encode,
  IsItem, report_id, usage_page, usage, has_tag, value, depth_behind, has_report_id, said,
}

-- The code's state behind an item: a long one changes nothing.
abbrev apply : Item → ℕ × Usage → ℕ × Usage
apply (short tag p) s = interpret (tag * 4) (word p) s
apply (long tag content) s = s

abbrev apply_all : List Item → ℕ × Usage → ℕ × Usage
apply_all [] s = s
apply_all (item ∷ items) s = apply_all items (apply item s)

-- What one item says.
abbrev said_by : (depth : ℕ) → Usage → Item → Usage
said_by depth h item = record {
  numbered_reports = has_tag report_id item || h.numbered_reports;
  usage_page = if has_tag usage_page item && depth == 0 then value item % 2 ^ 16 else h.usage_page;
  usage = if has_tag usage item && depth == 0 then value item % 2 ^ 16 else h.usage;
}

apply-said_by :
    (item : Item) (depth : ℕ) (h : Usage)
    → apply item (depth, h) ≡ (depth_behind item depth, said_by depth h item)
unfolding interpret
apply-said_by (long tag content) depth h = refl
apply-said_by (short tag p) depth h = ground arith

or_last : (a b c : Bool) → (b || (a || c)) ≡ ((a || b) || c)
or_last a b c = ground arith

apply_all-said :
    (items : List Item) (depth : ℕ) (h : Usage)
    → (apply_all items (depth, h)).1 ≡ said depth h items
apply_all-said [] depth h = refl
apply_all-said (item ∷ items) depth h =
    ap (λ s. (apply_all items s).1) (apply-said_by item depth h)
    ∙ apply_all-said items (depth_behind item depth) (said_by depth h item)
    ∙ ap (λ b. record (said depth h (item ∷ items)) { numbered_reports = b })
        (or_last (has_tag report_id item) (has_report_id items) h.numbered_reports)

lt→leb : (a b : ℕ) → a < b → leb b a ≡ false
lt→leb a b h = ground arith

data_size-short :
    (tag : ℕ) (p : Payload) → data_size (tag * 4 + size_code p) ≡ length (payload_bytes p)
unfolding data_size
data_size-short tag none0 = ground arith
data_size-short tag (one b1) = ground arith
data_size-short tag (two b1 b2) = ground arith
data_size-short tag (four b1 b2 b3 b4) = ground arith

type-short : (tag : ℕ) (p : Payload) → (tag * 4 + size_code p) / 4 * 4 ≡ tag * 4
type-short tag none0 = omega arith
type-short tag (one b1) = omega arith
type-short tag (two b1 b2) = omega arith
type-short tag (four b1 b2 b3 b4) = omega arith

read_data-short :
    (i : ℕ) (pre : List ℕ) (prefix : ℕ) (p : Payload) (rest : List ℕ)
    → i ≡ length pre
    → read_data (pre ++ (prefix ∷ payload_bytes p ++ rest)) i (length (payload_bytes p))
      ≡ some (word p)
unfolding read_data
read_data-short i pre prefix none0 rest h = refl
read_data-short i pre prefix (one b1) rest h = get_elem?-behind i 1 pre _ h
read_data-short i pre prefix (two b1 b2) rest h =
    let v = prefix ∷ b1 ∷ b2 ∷ rest in
    rw (get_elem?-behind i 2 pre v h, get_elem?-behind i 1 pre v h)
read_data-short i pre prefix (four b1 b2 b3 b4) rest h =
    let v = prefix ∷ b1 ∷ b2 ∷ b3 ∷ b4 ∷ rest in
    rw (
      get_elem?-behind i 4 pre v h,
      get_elem?-behind i 3 pre v h,
      get_elem?-behind i 2 pre v h,
      get_elem?-behind i 1 pre v h,
    )

first :
    (i : ℕ) (pre : List ℕ) (b : ℕ) (rest : List ℕ)
    → i ≡ length pre
    → get_elem? (pre ++ (b ∷ rest)) i ≡ some b
first i pre b rest h =
    ap (get_elem? (pre ++ (b ∷ rest))) {y = i + 0} (omega arith)
    ∙ get_elem?-behind i 0 pre (b ∷ rest) h

step_short :
    (fuel i size tag : ℕ) (p : Payload) (pre rest : List ℕ) (s : ℕ × Usage)
    → i ≡ length pre
    → tag * 4 + size_code p ≢ 0xFE
    → parse_loop (suc fuel) i size (pre ++ (bytes (short tag p) ++ rest)) s
      ≡ parse_loop fuel
          (i + (length (payload_bytes p) + 1))
          (length (payload_bytes p))
          (pre ++ (bytes (short tag p) ++ rest))
          (apply (short tag p) s)
unfolding parse_loop
step_short fuel i size tag p pre rest s h ne =
    let total = length-append pre (bytes (short tag p) ++ rest) in
    let own = length-append (payload_bytes p) rest in
    rw (
      lt→ltb i (length (pre ++ (bytes (short tag p) ++ rest))) (omega (arith, total)),
      first i pre (tag * 4 + size_code p) (payload_bytes p ++ rest) h,
      ==-of_ne (tag * 4 + size_code p) 0xFE ne,
      data_size-short tag p,
      lt→leb (i + length (payload_bytes p)) (length (pre ++ (bytes (short tag p) ++ rest)))
          (omega (arith, total, own)),
      read_data-short i pre (tag * 4 + size_code p) p rest h,
      type-short tag p,
    )

step_long :
    (fuel i size tag : ℕ) (content pre rest : List ℕ) (s : ℕ × Usage)
    → i ≡ length pre
    → parse_loop (suc fuel) i size (pre ++ (bytes (long tag content) ++ rest)) s
      ≡ parse_loop fuel
          (i + (length content + 2 + 1))
          (length content + 2)
          (pre ++ (bytes (long tag content) ++ rest))
          s
unfolding parse_loop
step_long fuel i size tag content pre rest s h =
    let total = length-append pre (bytes (long tag content) ++ rest) in
    let own = length-append content rest in
    rw (
      lt→ltb i (length (pre ++ (bytes (long tag content) ++ rest))) (omega (arith, total)),
      first i pre 0xFE (length content ∷ tag ∷ content ++ rest) h,
      lt→ltb (i + 1) (length (pre ++ (bytes (long tag content) ++ rest)))
          (omega (arith, total, own)),
      get_elem?-behind i 1 pre (0xFE ∷ length content ∷ tag ∷ content ++ rest) h,
    )

parse_loop-end :
    (fuel i size : ℕ) (value : List ℕ) (s : ℕ × Usage)
    → length value ≤ i
    → parse_loop fuel i size value s ≡ some s.1
unfolding parse_loop
parse_loop-end zero i size value s h = rw (le→ltb i (length value) h)
parse_loop-end (suc fuel) i size value s h = rw (le→ltb i (length value) h)

parse_loop-items :
    (items : List Item) (fuel i size : ℕ) (pre : List ℕ) (s : ℕ × Usage)
    → i ≡ length pre
    → length (encode items) ≤ fuel
    → All IsItem items
    → parse_loop fuel i size (pre ++ encode items) s ≡ some (apply_all items s).1
parse_loop-items [] fuel i size pre s h enough good =
    rw append-nil (parse_loop-end fuel i size pre s (omega arith))
parse_loop-items (short tag p ∷ items) zero i size pre s h enough good = absurd (omega arith)
parse_loop-items (long tag content ∷ items) zero i size pre s h enough good = absurd (omega arith)
parse_loop-items (short tag p ∷ items) (suc fuel) i size pre s h enough good =
    let n = length (payload_bytes p) in
    step_short fuel i size tag p pre (encode items) s h good.0.1
    ∙ rw (← append_assoc pre (bytes (short tag p)) (encode items)) (
        parse_loop-items items fuel (i + (n + 1)) n (pre ++ bytes (short tag p))
          (apply (short tag p) s) (omega (arith, length-append pre (bytes (short tag p))))
          (omega (arith, length-append (bytes (short tag p)) (encode items))) good.1)
parse_loop-items (long tag content ∷ items) (suc fuel) i size pre s h enough good =
    let n = length content + 2 in
    step_long fuel i size tag content pre (encode items) s h
    ∙ rw (← append_assoc pre (bytes (long tag content)) (encode items)) (
        parse_loop-items items fuel (i + (n + 1)) n (pre ++ bytes (long tag content)) s
          (omega (arith, length-append pre (bytes (long tag content))))
          (omega (arith, length-append (bytes (long tag content)) (encode items))) good.1)

-- The scan of the bytes of any sequence of short and long items, none of whose short prefixes is
-- the reserved one, leaves in the handle what the report says: the reports have numbers where any
-- item gives a report ID, or the handle had that before; the usage page and the usage are those of
-- the last such items that stand outside of all collections, or those from before.
pub parse_descriptor-encode :
    (items : List Item) (h : Usage)
    → All IsItem items
    → parse_descriptor (encode items) h ≡ some (said 0 h items)
unfolding parse_descriptor
parse_descriptor-encode items h good =
    rw (← apply_all-said items 0 h)
      (parse_loop-items items (length (encode items)) 0 0 [] (0, h) refl (omega arith) good)

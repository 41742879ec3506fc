-- ===== src/HidDescriptor/Items.antt =====
-- The items of a HID report descriptor and their bytes, and what they say of the primary usage.
use libhs.Base.{
  ℕ, ◌+◌, ◌-◌, ◌*◌, ◌<◌, ◌≢◌, Bool, false, ◌&&◌, ◌||◌, ◌==◌, if◌then◌else◌, List, [], ◌∷◌, ◌++◌,
  length, ◌%◌, ◌^◌,
}
use libhs.HidDescriptor.{Usage}

-- The data of a short item: none, one, two or four bytes.
pub data Payload : Type 0 where
  none0 : Payload
  one : ℕ → Payload
  two : (b1 b2 : ℕ) → Payload
  four : (b1 b2 b3 b4 : ℕ) → Payload

pub data Item : Type 0 where
  short : (tag : ℕ) → Payload → Item
  long : (tag : ℕ) → List ℕ → Item

abbrev pub size_code : Payload → ℕ
size_code none0 = 0
size_code (one b1) = 1
size_code (two b1 b2) = 2
size_code (four b1 b2 b3 b4) = 3

abbrev pub payload_bytes : Payload → List ℕ
payload_bytes none0 = []
payload_bytes (one b1) = b1 ∷ []
payload_bytes (two b1 b2) = b1 ∷ b2 ∷ []
payload_bytes (four b1 b2 b3 b4) = b1 ∷ b2 ∷ b3 ∷ b4 ∷ []

abbrev pub word : Payload → ℕ
word none0 = 0
word (one b1) = b1
word (two b1 b2) = b2 * 256 + b1
word (four b1 b2 b3 b4) = (b4 * 16777216 + b3 * 65536 + b2 * 256 + b1) % 2 ^ 32

-- The prefix of a short item packs its tag and type with the code of its size.
abbrev pub bytes : Item → List ℕ
bytes (short tag p) = (tag * 4 + size_code p) ∷ payload_bytes p
bytes (long tag content) = 0xFE ∷ length content ∷ tag ∷ content

abbrev pub encode : List Item → List ℕ
encode [] = []
encode (item ∷ items) = bytes item ++ encode items

-- The prefix 0xFE is reserved for long items.
abbrev pub IsItem : Item → Type 0
IsItem (short tag p) = (tag < 64) × (tag * 4 + size_code p ≢ 0xFE)
IsItem (long tag content) = length content < 256

-- The tags, with their types, that the scan is about, as the HID specification numbers them.
abbrev pub collection : ℕ
collection = 0x28

abbrev pub end_collection : ℕ
end_collection = 0x30

abbrev pub report_id : ℕ
report_id = 0x21

abbrev pub usage_page : ℕ
usage_page = 0x01

abbrev pub usage : ℕ
usage = 0x02

-- A long item has none of them.
abbrev pub has_tag : ℕ → Item → Bool
has_tag t (short tag p) = tag == t
has_tag t (long tag content) = false

abbrev pub value : Item → ℕ
value (short tag p) = word p
value (long tag content) = 0

-- How many collections are open behind an item, in 32 bits.
abbrev pub depth_behind : Item → (depth : ℕ) → ℕ
depth_behind item depth =
    if has_tag collection item
    then (depth + 1) % 2 ^ 32
    else if has_tag end_collection item
    then (depth + 2 ^ 32 - 1) % 2 ^ 32
    else depth

-- The reports have numbers where any item, in a collection or not, gives a report ID.
abbrev pub has_report_id : List Item → Bool
has_report_id [] = false
has_report_id (item ∷ items) = has_tag report_id item || has_report_id items

-- The low 16 bits of the last item with a tag that stands outside of all collections, or `none_yet`
-- where there is no such item.
abbrev pub last_outside : (tag depth none_yet : ℕ) → List Item → ℕ
last_outside tag depth none_yet [] = none_yet
last_outside tag depth none_yet (item ∷ items) =
    last_outside tag (depth_behind item depth)
      (if has_tag tag item && depth == 0 then value item % 2 ^ 16 else none_yet) items

-- What a report says, where the handle had `h` and `depth` collections are open.
abbrev pub said : (depth : ℕ) → Usage → List Item → Usage
said depth h items = record {
  numbered_reports = has_report_id items || h.numbered_reports;
  usage_page = last_outside usage_page depth h.usage_page items;
  usage = last_outside usage depth h.usage items;
}

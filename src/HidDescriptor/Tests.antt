-- ===== src/HidDescriptor/Tests.antt =====
-- The theorems on the scan at a small report: a vendor usage page and usage, a collection that holds
-- another usage and a report ID, a long item.
use libhs.Base.{◌≡◌, some, List, [], ◌∷◌, true, arith}
use libhs.HidDescriptor.{Usage, no_usage, parse_descriptor}
use libhs.HidDescriptor.Items.{Item, short, long, none0, one, two, encode}
use libhs.HidDescriptor.Total.{parse_descriptor-total}
use libhs.HidDescriptor.Meaning.{parse_descriptor-encode}

abbrev report : List Item
report =
    short 0x01 (two 0x00 0xFF)
    ∷ short 0x02 (one 0x20)
    ∷ short 0x28 (one 0x01)
    ∷ short 0x02 (one 0x21)
    ∷ short 0x21 (one 0x01)
    ∷ short 0x30 none0
    ∷ long 0x10 (1 ∷ 2 ∷ [])
    ∷ []

-- The usage inside the collection does not count, the report ID in it does.
parse_descriptor-encode_example :
    parse_descriptor (encode report) no_usage
    ≡ some (record { numbered_reports = true; usage_page = 0xFF00; usage = 0x20 })
unfolding parse_descriptor
parse_descriptor-encode_example = parse_descriptor-encode report no_usage (omega arith)

parse_descriptor-total_example :
    (u : Usage) × (parse_descriptor (0x05 ∷ 0x01 ∷ 0x0A ∷ 0x06 ∷ []) no_usage ≡ some u)
parse_descriptor-total_example = parse_descriptor-total (0x05 ∷ 0x01 ∷ 0x0A ∷ 0x06 ∷ []) no_usage

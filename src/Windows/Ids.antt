-- ===== src/Windows/Ids.antt =====
-- The identifiers and paths of src/monitor_win32.c. A string is its bytes before the terminator.
pub mod RoundTrip
use libhs.Base.{
  ℕ, suc, ◌+◌, ◌-◌, Bool, true, false, ◌&&◌, ◌||◌, Option, none, some, List, [], ◌∷◌, ◌++◌, map,
  if◌then◌else◌, ltb, leb, ◌==◌, drop, take, get_or,
}
use libhs.Common.{Text, codes}
use libhs.Monitor.{text_eq}
use libhs.Compat.{strrpbrk}

-- `strncmp(s, p, strlen(p)) == 0`
abbrev pub starts_with : (p s : Text) → Bool
starts_with [] s = true
starts_with (c ∷ p) [] = false
starts_with (c ∷ p) (d ∷ s) = c == d && starts_with p s

-- `strstr(s, p)`: the rest of `s` from the first place where `p` stands.
abbrev pub strstr : (s p : Text) → Option Text
strstr [] p = if starts_with p [] then some [] else none
strstr (c ∷ s) p = if starts_with p (c ∷ s) then some (c ∷ s) else strstr s p

-- `toupper` in the C locale.
abbrev pub toupper : ℕ → ℕ
toupper c = if leb 97 c && leb c 122 then c - 32 else c

-- The body of the loop of `extract_device_id`.
abbrev pub id_byte : ℕ → ℕ
id_byte c = let upper = toupper c in if upper == 35 then 92 else upper

-- The bytes of the prefixes that are skipped: `\\?\`, `\\.\`, `##.#` and `##?#`.
unfoldable pub skip_prefix : Text → Text
skip_prefix key =
    if starts_with (92 ∷ 92 ∷ 63 ∷ 92 ∷ []) key
      || starts_with (92 ∷ 92 ∷ 46 ∷ 92 ∷ []) key
      || starts_with (35 ∷ 35 ∷ 46 ∷ 35 ∷ []) key
      || starts_with (35 ∷ 35 ∷ 63 ∷ 35 ∷ []) key
    then drop 4 key
    else key

-- `if (ptr && ptr[1] == '{') *ptr = 0;`
unfoldable pub cut_class : Text → Option ℕ → Text
cut_class id none = id
cut_class id (some i) = if get_or id (i + 1) 0 == 123 then take i id else id

-- `allocated` is the answer of `strdup`; the device class at the end is cut off.
unfoldable pub extract_device_id : (allocated : Bool) → (key : Text) → Option Text
unfolding skip_prefix cut_class
extract_device_id allocated key =
    let id = skip_prefix key in
    if allocated then some (map id_byte (cut_class id (strrpbrk id (92 ∷ 35 ∷ [])))) else none

-- The loop of `build_device_path`, at one byte.
abbrev pub path_byte : ℕ → ℕ
path_byte c = if c == 92 then 35 else c

-- `build_device_path`; `guid` is the text of the class as `sprintf` prints it behind `#{`, and
-- `allocated` the answer of `malloc`.
unfoldable pub build_device_path : (allocated : Bool) → (id guid : Text) → Option Text
build_device_path allocated id guid =
    if allocated
    then some ((92 ∷ 92 ∷ 46 ∷ 92 ∷ []) ++ map path_byte id ++ 35 ∷ 123 ∷ guid)
    else none

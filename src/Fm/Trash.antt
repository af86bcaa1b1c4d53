-- ===== src/Fm/Trash.antt =====
-- fm/src/fileops.c: the .trashinfo files that the trash keeps, in which the path of a file is written with
-- %-escapes. A file is the list of its bytes.
pub mod Escapes
use isde.Common.{
  ℕ, zero, suc, ◌+◌, ◌-◌, ◌*◌, ◌/◌, ◌%◌, ◌==◌, ltb, leb, Bool, true, false, ◌&&◌, ◌||◌, List, [],
  ◌∷◌, ◌++◌, Option, none, some, Str, codes, length, if◌then◌else◌,
}
use isde.Common.Stdio.{fgets, behind, before, is_space}

-- The bytes that `url_encode_path` keeps: / A-Z a-z 0-9 - _ . ~
unfoldable pub is_kept : ℕ → Bool
is_kept c =
    (c == 47)
    || ((leb 65 c && leb c 90)
        || ((leb 97 c && leb c 122)
            || ((leb 48 c && leb c 57) || ((c == 45) || ((c == 95) || ((c == 46) || (c == 126)))))))

-- The digits of %02X
unfoldable pub hex_digit : ℕ → ℕ
hex_digit d = if ltb d 10 then 48 + d else 55 + d

unfoldable pub escaped : ℕ → Str
escaped c = if is_kept c then c ∷ [] else 37 ∷ hex_digit (c / 16) ∷ hex_digit (c % 16) ∷ []

unfoldable pub url_encode_path : Str → Str
url_encode_path [] = []
url_encode_path (c ∷ s) = escaped c ++ url_encode_path s

-- The fprintf of `fileops_trash`
unfoldable pub trash_info : (path date : Str) → Str
trash_info path date =
    codes "[Trash Info]"
    ++ (10
        ∷ (codes "Path="
            ++ (url_encode_path path ++ (10 ∷ (codes "DeletionDate=" ++ (date ++ 10 ∷ []))))))

unfoldable pub hex_value : ℕ → Option ℕ
hex_value c =
    if leb 48 c && leb c 57
    then some (c - 48)
    else if leb 65 c && leb c 70
    then some (c - 55)
    else if leb 97 c && leb c 102
    then some (c - 87)
    else none

-- (char)strtol(hex, NULL, 16) for a string of two bytes: a sign or a space may stand before the digit, and what
-- is no digit ends the number.
abbrev pub strtol_of : (first : ℕ) → Option ℕ → Option ℕ → ℕ
strtol_of a (some x) (some y) = 16 * x + y
strtol_of a (some x) none = x
strtol_of a none (some y) =
    if a == 45 then (256 - y) % 256 else if (a == 43) || is_space a then y else 0
strtol_of a none none = 0

unfoldable pub strtol_hex : (first second : ℕ) → ℕ
strtol_hex a b = strtol_of a (hex_value a) (hex_value b)

-- The loop of `read_trashinfo_path` over the value. The last two bytes start no escape.
unfoldable pub url_decode : Str → Str
url_decode [] = []
url_decode (c ∷ []) = c ∷ []
url_decode (c ∷ a ∷ []) = c ∷ a ∷ []
url_decode (c ∷ a ∷ b ∷ s) = elim (c == 37) [
  | true ↦ strtol_hex a b ∷ url_decode s
  | false ↦ c ∷ url_decode (a ∷ b ∷ s)
]

-- PATH_MAX
abbrev pub path_max : ℕ
path_max = 4096

abbrev pub decoded : Str → Str
decoded val = before 0 (url_decode (before 10 (before 0 val)))

unfoldable pub read_lines : (fuel : ℕ) → Str → Option Str
read_lines zero file = none
read_lines (suc fuel) [] = none
read_lines (suc fuel) (c ∷ file) =
    let (line, left) = fgets (path_max - 1) (c ∷ file) in
    let rest = read_lines fuel left in
    elim (behind (codes "Path=") line) [ some val ↦ some (decoded val) | none ↦ rest ]

-- `read_trashinfo_path`. A call of fgets reads at least a byte.
unfoldable pub read_trashinfo_path : Str → Option Str
read_trashinfo_path file = read_lines (length file) file

-- ===== src/Platform/ConfigWrite.antt =====
-- platform/common/isde-config-write.c: a key of a TOML file is replaced or inserted, and a section deleted,
-- line by line. A file is the list of its bytes, and none when it cannot be read. The mkdir of `ensure_dir`
-- before it is left out.
pub mod Lookup
pub mod Locate
pub mod Edit
pub mod Files
pub mod Written
pub mod Others
pub mod Deleted
use isde.Common.{
  ℕ, zero, suc, ◌-◌, ◌==◌, ltb, Bool, true, false, not, ◌&&◌, ◌||◌, List, [], ◌∷◌, ◌++◌, Option,
  none, some, is_some, Str, codes, length, fit, is_empty, if◌then◌else◌,
}
use isde.Common.Stdio.{fgets, behind, before, is_space}

-- A line as it is kept: up to its zero byte, without its newline.
abbrev pub chomped : Str → Str
chomped s = before 10 (before 0 s)

-- The loop over fgets(buf, sizeof(buf), in). A call reads at least a byte.
unfoldable pub read_lines : (fuel : ℕ) → Str → List Str
read_lines zero file = []
read_lines (suc fuel) [] = []
read_lines (suc fuel) (c ∷ file) =
    let (line, left) = fgets 1023 (c ∷ file) in chomped line ∷ read_lines fuel left

unfoldable pub lines_of : Str → List Str
lines_of file = read_lines (length file) file

-- fprintf(out, "%s\n", line) for every line
abbrev pub printed_lines : List Str → Str
printed_lines [] = []
printed_lines (l ∷ ls) = l ++ 10 ∷ printed_lines ls

-- The loop that skips white space.
abbrev pub trimmed : Str → Str
trimmed [] = []
trimmed (c ∷ s) = if is_space c then trimmed s else c ∷ s

abbrev pub starts : ℕ → Str → Bool
starts b [] = false
starts b (c ∷ s) = c == b

abbrev pub section_header : Str → Str
section_header section = fit 256 (91 ∷ section ++ 93 ∷ [])

abbrev pub ends_or_space : Option Str → Bool
ends_or_space none = false
ends_or_space (some []) = true
ends_or_space (some (c ∷ s)) = is_space c

-- Whether a trimmed line is the header.
unfoldable pub is_header : (section line : Str) → Bool
is_header section line = ends_or_space (behind (section_header section) line)

-- Whether the key is there, and behind white space a '='.
abbrev pub has_equal : Option Str → Bool
has_equal none = false
has_equal (some after) = starts 61 (trimmed after)

unfoldable pub is_key : (key line : Str) → Bool
is_key key line = has_equal (behind key line)

abbrev pub is_comment : Str → Bool
is_comment line = starts 35 line || is_empty line

-- The variables of the loop that looks for the key: -1 is none.
pub record Scan : Type 0 where
  pub in_target : Bool
  pub key_line : Option ℕ
  pub section_end : Option ℕ
  pub section_start : Option ℕ

abbrev pub start_scan : Scan
start_scan = record { in_target = false; key_line = none; section_end = none; section_start = none }

unfoldable pub scan_line : (section key : Str) (i : ℕ) (line : Str) → Scan → Scan
scan_line section key i line st =
    let looking = st.in_target && not (is_some st.key_line) in
    let found = is_header section (trimmed line) in
    if starts 91 (trimmed line)
    then record st {
      section_end = if looking then some i else st.section_end;
      in_target = found;
      section_start = if found then some i else st.section_start;
    }
    else if looking && not (is_comment (trimmed line)) && is_key key (trimmed line)
    then record st { key_line = some i }
    else st

unfoldable pub scan_lines : (section key : Str) (i : ℕ) → List Str → Scan → Scan
scan_lines section key i [] st = st
scan_lines section key i (l ∷ ls) st =
    scan_lines section key (suc i) ls (scan_line section key i l st)

-- "%s = %s"
abbrev pub entry : (key value : Str) → Str
entry key value = key ++ (codes " = " ++ value)

abbrev pub is_at : Option ℕ → ℕ → Bool
is_at none i = false
is_at (some j) i = i == j

-- The loop that writes, and what follows it, with `written`.
unfoldable pub write_lines :
    (section key value : Str) → Scan → (i : ℕ) → (written : Bool) → List Str → List Str
write_lines section key value st i written [] =
    (if not written && is_some st.section_start && not (is_some st.key_line)
      then entry key value ∷ []
      else [])
    ++ (if is_some st.section_start
        then []
        else [] ∷ (91 ∷ section ++ 93 ∷ []) ∷ entry key value ∷ [])
write_lines section key value st i written (l ∷ ls) =
    let here = is_at st.key_line i in
    let before_it =
      is_at st.section_end i && not (is_some st.key_line) && is_some st.section_start in
    let rest = write_lines section key value st (suc i) (written || here || before_it) ls in
    if here
    then entry key value ∷ rest
    else if before_it
    then entry key value ∷ l ∷ rest
    else l ∷ rest

-- The lines that `write_value` makes of the lines of the file.
unfoldable pub new_lines : (section key value : Str) → List Str → List Str
new_lines section key value ls =
    let st = scan_lines section key 0 ls start_scan in
    let st' =
      if st.in_target && not (is_some st.section_end)
      then record st { section_end = some (length ls) }
      else st in
    write_lines section key value st' 0 false ls

-- `write_value`: 0 is true. `can_write` is whether fopen(path, "w") opens the file.
unfoldable pub write_value :
    (can_write : Bool) (section key value : Str) → Option Str → Bool × Option Str
write_value can_write section key value file = if not can_write then (false, file) else (
  true,
  some (elim file [
    | none ↦ printed_lines ((91 ∷ section ++ 93 ∷ []) ∷ entry key value ∷ [])
    | some bytes ↦ printed_lines (new_lines section key value (lines_of bytes))
  ]),
)

-- The number of lines before the first header, or all.
unfoldable pub skipped_to : List Str → List Str
skipped_to [] = []
skipped_to (l ∷ ls) = let rest = skipped_to ls in if starts 91 (trimmed l) then l ∷ ls else rest

-- `isde_config_delete_section` leaves out the lines from the section's header to the next one.
unfoldable pub without_section : (section : Str) → List Str → Option (List Str)
without_section section [] = none
without_section section (l ∷ ls) =
    let rest = without_section section ls in
    if starts 91 (trimmed l) && is_header section (trimmed l)
    then some (skipped_to ls)
    else elim rest [ none ↦ none | some r ↦ some (l ∷ r) ]

unfoldable pub delete_section : (can_write : Bool) (section : Str) → Option Str → Bool × Option Str
delete_section can_write section none = (true, none)
delete_section can_write section (some bytes) = elim (without_section section (lines_of bytes)) [
  | none ↦ (true, some bytes)
  | some ls ↦ if can_write then (true, some (printed_lines ls)) else (false, some bytes)
]

-- The two writers of text: a string stands between quotes as it is.
unfoldable pub write_string :
    (can_write : Bool) (section key value : Str) → Option Str → Bool × Option Str
write_string can_write section key value file =
    write_value can_write section key (34 ∷ value ++ 34 ∷ []) file

unfoldable pub write_bool :
    (can_write : Bool) (section key : Str) (value : Bool) → Option Str → Bool × Option Str
write_bool can_write section key value file =
    write_value can_write section key (if value then codes "true" else codes "false") file

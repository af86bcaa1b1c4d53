-- ===== src/Platform/ConfigWrite/Written.antt =====
-- What a written file says of the key that was written, and of all others.
use isde.Common.{
  ap, sym, ◌∙◌, ◌≡◌, refl, ltb, Bool, true, false, List, [], ◌∷◌, ◌++◌, Option, none, some, Str,
  length, length-append, all, all-append, arith,
}
use isde.Common.Stdio.{is_plain}
use isde.Platform.ConfigWrite.{trimmed, entry, lines_of, printed_lines, new_lines, write_value}
use isde.Platform.ConfigWrite.Lookup.{
  is_name, IsName, IsSection, get, or_else, get-append, is_header-written, says-entry,
  value_behind-entry,
}
use isde.Platform.ConfigWrite.Locate.{found}
use isde.Platform.ConfigWrite.Edit.{Edited, replaced, inserted, appended, new_lines-Edited}
use isde.Platform.ConfigWrite.Files.{is_line, lines_of-is_line, lines_of-printed_lines}

-- The lines of a file, of which a file that is not there has none.
abbrev pub lines_in : Option Str → List Str
lines_in none = []
lines_in (some file) = lines_of file

-- The value that a file gives a key of a section.
abbrev pub value_in : (section key : Str) → Option Str → Option Str
value_in section key file = get section key false (lines_in file)

or_else-none : (o o' : Option Str) → or_else o o' ≡ none → o ≡ none
or_else-none none o' h = refl
or_else-none (some x) o' h = h

name-plain : (s : Str) → all is_name s ≡ true → all is_plain s ≡ true
name-plain [] h = refl
name-plain (c ∷ s) h = ground (arith, name-plain s (ground arith))

pub header-is_line : (s : Str) → IsSection s → is_line (91 ∷ s ++ 93 ∷ []) ≡ true
header-is_line s sec =
    ground (
      arith,
      name-plain s sec.0.1,
      all-append is_plain s (93 ∷ []),
      length-append s (93 ∷ []),
      sec.1,
    )

pub get-blank : (s k : Str) (b : Bool) (ls : List Str) → get s k b ([] ∷ ls) ≡ get s k b ls
unfolding get
get-blank s k true ls = refl
get-blank s k false ls = refl

module _ (s k v : Str) (sec : IsSection s) (name : IsName k) where
  -- A line with the key, where the section is open.
  get-entry : (ls : List Str) → get s k true (entry k v ∷ ls) ≡ some (trimmed v)
  unfolding get
  get-entry ls = rw (says-entry k v name) (ap some (value_behind-entry k v name))

  get-new_section : (b : Bool) → get s k b ((91 ∷ s ++ 93 ∷ []) ∷ entry k v ∷ []) ≡ some (trimmed v)
  unfolding get
  get-new_section b = ground (arith, is_header-written s sec, get-entry [])

  get-Edited : {ls out : List Str} → Edited s k v ls out → found s k out ≡ some (trimmed v)
  get-Edited (replaced f e) =
      ap (found s k) e
      ∙ get-append s k false f.pre (entry k v ∷ f.post)
      ∙ rw (f.not_before, f.is_inside) (get-entry f.post)
  get-Edited (inserted {i} f {out} n e) =
      ap (found s k) e
      ∙ get-append s k false f.pre (entry k v ∷ f.post)
      ∙ rw
          (
            or_else-none (found s k f.pre) _
                (sym (get-append s k false f.pre f.post) ∙ ap (found s k) (sym f.splits) ∙ n),
            f.is_inside,
          )
          (get-entry f.post)
  get-Edited {ls} (appended n i e) =
      ap (found s k) e
      ∙ get-append s k false ls ([] ∷ (91 ∷ s ++ 93 ∷ []) ∷ entry k v ∷ [])
      ∙ rw (n, i) (get-blank s k false _ ∙ get-new_section false)

  -- The new lines can be read back.
  pub all-Edited :
      {ls out : List Str}
      → Edited s k v ls out
      → all is_line ls ≡ true
      → is_line (entry k v) ≡ true
      → all is_line out ≡ true
  all-Edited (replaced f e) h l = ground (
    arith,
    ap (all is_line) e,
    ap (all is_line) f.splits,
    all-append is_line f.pre (f.line ∷ f.post),
    all-append is_line f.pre (entry k v ∷ f.post),
  )
  all-Edited (inserted f n e) h l = ground (
    arith,
    ap (all is_line) e,
    ap (all is_line) f.splits,
    all-append is_line f.pre f.post,
    all-append is_line f.pre (entry k v ∷ f.post),
  )
  all-Edited {ls} (appended n i e) h l = ground (
    arith,
    ap (all is_line) e,
    all-append is_line ls ([] ∷ (91 ∷ s ++ 93 ∷ []) ∷ entry k v ∷ []),
    header-is_line s sec,
  )

  get-new_file : found s k ((91 ∷ s ++ 93 ∷ []) ∷ entry k v ∷ []) ≡ some (trimmed v)
  get-new_file = get-new_section false

  -- What write_value writes for a section and a key whose names have the bytes of bare keys and dots only, the
  -- section's header at most 255 bytes long, when the lines of the file and the new line have less than 1023 bytes
  -- and no newline: the file that it leaves gives the key the value, without white space before it.
  pub write_value-value_in :
      (file : Option Str)
      → all (λ l. ltb (length l) 1023) (lines_in file) ≡ true
      → is_line (entry k v) ≡ true
      → (out : Str) × (write_value true s k v file ≡ (true, some out))
        × (value_in s k (some out) ≡ some (trimmed v))
  unfolding write_value
  write_value-value_in none short l =
      let ls = (91 ∷ s ++ 93 ∷ []) ∷ entry k v ∷ [] in
      let back = lines_of-printed_lines ls (ground (arith, header-is_line s sec)) in
      (printed_lines ls, refl, ap (found s k) back ∙ get-new_file)
  write_value-value_in (some bytes) short l =
      let ls = new_lines s k v (lines_of bytes) in
      let edit = new_lines-Edited s k v (lines_of bytes) in
      let back = lines_of-printed_lines ls (all-Edited edit (lines_of-is_line bytes short) l) in
      (printed_lines ls, refl, ap (found s k) back ∙ get-Edited edit)

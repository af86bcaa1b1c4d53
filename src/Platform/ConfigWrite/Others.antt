-- ===== src/Platform/ConfigWrite/Others.antt =====
-- A write leaves what a file says of every other key.
use mathlib.Core.List.{append-nil}
use isde.Common.{
  ap, sym, ◌∙◌, ◌≡◌, refl, ltb, Bool, true, false, not, ◌&&◌, ◌||◌, List, [], ◌∷◌, ◌++◌, Option,
  none, some, Str, str_eq, str_eq_refl, length, if◌then◌else◌, all, Bool-cases, inl, inr, arith,
}
use isde.Platform.ConfigWrite.{trimmed, starts, is_header, entry, lines_of, new_lines, write_value}
use isde.Platform.ConfigWrite.Lookup.{
  IsName, IsSection, says, inside_line, inside_after, get, or_else, get-append, is_key_unique,
  is_header_unique, is_header-written, trimmed-entry, starts-entry, says-entry,
}
use isde.Platform.ConfigWrite.Locate.{inside, found}
use isde.Platform.ConfigWrite.Edit.{Edited, replaced, inserted, appended, new_lines-Edited}
use isde.Platform.ConfigWrite.Files.{is_line, lines_of-is_line, lines_of-printed_lines}
use isde.Platform.ConfigWrite.Written.{lines_in, value_in, get-blank, all-Edited, header-is_line}

-- Another key, or the same of another section.
module _ (s k s' k' v : Str) (sec : IsSection s) (name : IsName k) (sec' : IsSection s')
    (name' : IsName k') (other : (str_eq s s' && str_eq k k') ≡ false) where
  same_section : (t : Str) → is_header s t ≡ true → is_header s' t ≡ true → str_eq s s' ≡ true
  same_section t h h' = rw (is_header_unique s s' t sec sec' h h') (str_eq_refl s')

  -- Where both sections are open, a line with the one key has not the other.
  not_both :
      (b b' : Bool) (line : Str)
      → (not (b && b') || str_eq s s') ≡ true
      → b ≡ true
      → says k line ≡ true
      → (b' && says k' line) ≡ false
  not_both b b' line h e says_it = elim (Bool-cases (b' && says k' line)) [
    | inr n ↦ n
    | inl y ↦ absurd (
        let e' = is_key_unique k k' line name.1 name'.1 (ground arith) (ground arith) in
        let same : str_eq k k' ≡ true = rw e' (str_eq_refl k') in ground (arith, other, same))
  ]

  -- Two sections are open at once only if they are the same.
  inside-both :
      (ls : List Str) (b b' : Bool)
      → (not (b && b') || str_eq s s') ≡ true
      → (not (inside_after s b ls && inside_after s' b' ls) || str_eq s s') ≡ true
  unfolding inside_after
  inside-both [] b b' h = h
  inside-both (l ∷ ls) b b' h =
      inside-both ls (inside_line s l b) (inside_line s' l b')
        (ground (arith, same_section (trimmed l)))

  get-frame :
      (pre ls ls' : List Str)
      → get s' k' (inside s' k' pre) ls ≡ get s' k' (inside s' k' pre) ls'
      → found s' k' (pre ++ ls) ≡ found s' k' (pre ++ ls')
  get-frame pre ls ls' e =
      get-append s' k' false pre ls
      ∙ ap (or_else (found s' k' pre)) e
      ∙ sym (get-append s' k' false pre ls')

  get-entry-other :
      (b' : Bool) (ls : List Str)
      → (b' && says k' (trimmed (entry k v))) ≡ false
      → get s' k' b' (entry k v ∷ ls) ≡ get s' k' b' ls
  unfolding get
  get-entry-other b' ls h = rw h (
      ap (λ t. get s' k' (if starts 91 t then is_header s' t else b') ls) (trimmed-entry k v name)
      ∙ ap (λ b. get s' k' (if b then is_header s' (entry k v) else b') ls) (starts-entry k v name))

  -- A line that has the key, in the place of one that has it too.
  get-line-other :
      (b' : Bool) (line : Str) (ls : List Str)
      → starts 91 (trimmed line) ≡ false
      → (b' && says k' (trimmed line)) ≡ false
      → get s' k' b' (line ∷ ls) ≡ get s' k' b' ls
  unfolding get
  get-line-other b' line ls h h' = rw (h', h) refl

  both_at : (pre : List Str) → (not (inside s k pre && inside s' k' pre) || str_eq s s') ≡ true
  both_at pre = inside-both pre false false refl

  says-not_header : (line : Str) → says k line ≡ true → starts 91 line ≡ false
  says-not_header line h = ground arith

  -- The section that is appended gives the other key no value.
  get-new_section-other :
      (b' : Bool) → get s' k' b' ((91 ∷ s ++ 93 ∷ []) ∷ entry k v ∷ []) ≡ get s' k' b' []
  unfolding get
  get-new_section-other b' =
      let header = 91 ∷ s ++ 93 ∷ [] in
      let b'' = is_header s' header in
      let open_both : (not (true && b'') || str_eq s s') ≡ true =
        ground (arith, same_section header (is_header-written s sec)) in
      let new = not_both true b'' (trimmed (entry k v)) open_both refl (says-entry k v name) in
      let rest : get s' k' b'' (entry k v ∷ []) ≡ none = get-entry-other b'' [] new in
      ground (arith, rest)

  get-Edited-other : {ls out : List Str} → Edited s k v ls out → found s' k' out ≡ found s' k' ls
  get-Edited-other (replaced f e) =
      let b' = inside s' k' f.pre in
      let old =
        not_both (inside s k f.pre) b' (trimmed f.line) (both_at f.pre) f.is_inside f.matches in
      let new =
        not_both (inside s k f.pre) b' (trimmed (entry k v)) (both_at f.pre) f.is_inside
          (says-entry k v name) in
      ap (found s' k') e
      ∙ get-frame f.pre (entry k v ∷ f.post) (f.line ∷ f.post) (
          get-entry-other b' f.post new
          ∙ sym (get-line-other b' f.line f.post (says-not_header (trimmed f.line) f.matches) old))
      ∙ ap (found s' k') (sym f.splits)
  get-Edited-other (inserted f n e) =
      let b' = inside s' k' f.pre in
      let new =
        not_both (inside s k f.pre) b' (trimmed (entry k v)) (both_at f.pre) f.is_inside
          (says-entry k v name) in
      ap (found s' k') e
      ∙ get-frame f.pre (entry k v ∷ f.post) f.post (get-entry-other b' f.post new)
      ∙ ap (found s' k') (sym f.splits)
  get-Edited-other {ls} (appended n i e) =
      let header = 91 ∷ s ++ 93 ∷ [] in
      ap (found s' k') e
      ∙ get-frame ls ([] ∷ header ∷ entry k v ∷ []) [] (
          get-blank s' k' (inside s' k' ls) (header ∷ entry k v ∷ [])
          ∙ get-new_section-other (inside s' k' ls))
      ∙ ap (found s' k') (append-nil ls)

  -- For every other pair of such names of a section and a key, the file that write_value leaves gives the value that
  -- the file gave before, or none as before, when the lines of the file and the new line have less than 1023 bytes
  -- and no newline.
  pub write_value-value_in_other :
      (file out : Option Str)
      → all (λ l. ltb (length l) 1023) (lines_in file) ≡ true
      → is_line (entry k v) ≡ true
      → write_value true s k v file ≡ (true, out)
      → value_in s' k' out ≡ value_in s' k' file
  unfolding write_value
  write_value-value_in_other none out short l e =
      let ls = (91 ∷ s ++ 93 ∷ []) ∷ entry k v ∷ [] in
      let back = lines_of-printed_lines ls (ground (arith, header-is_line s sec)) in
      ap (value_in s' k') (sym (ap (λ r. r.1) e))
      ∙ ap (found s' k') back
      ∙ get-new_section-other false
  write_value-value_in_other (some bytes) out short l e =
      let ls = new_lines s k v (lines_of bytes) in
      let edit = new_lines-Edited s k v (lines_of bytes) in
      let is = all-Edited s k v sec name edit (lines_of-is_line bytes short) l in
      ap (value_in s' k') (sym (ap (λ r. r.1) e))
      ∙ ap (found s' k') (lines_of-printed_lines ls is)
      ∙ get-Edited-other edit

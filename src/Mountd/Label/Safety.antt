-- ===== src/Mountd/Label/Safety.antt =====
-- What `sanitize_label` makes of a label is one ordinary directory name.
use isde.Common.{
  ℕ, zero, suc, ◌≤◌, ◌≡◌, refl, ◌≢◌, Bool, false, [], ◌∷◌, arith, ◌==◌, Str, length, is_empty, ◌||◌,
  ◌⊎◌, inl, inr,
}
use isde.Mountd.Label.{sanitize_label, sanitize_from, or_disk}

-- Whether a byte occurs in a string.
abbrev pub has_byte : ℕ → Str → Bool
has_byte b [] = false
has_byte b (c ∷ s) = (c == b) || has_byte b s

abbrev pub starts_with_byte : ℕ → Str → Bool
starts_with_byte b [] = false
starts_with_byte b (c ∷ s) = c == b

-- One path component: not empty, without a slash, and neither `.` nor `..` nor any other hidden name.
pub record IsComponent (s : Str) : Type 0 where
  pub nonempty : is_empty s ≡ false
  pub no_slash : has_byte b'/' s ≡ false
  pub not_hidden : starts_with_byte b'.' s ≡ false

sanitize_from-no_slash : (i room : ℕ) (s : Str) → has_byte b'/' (sanitize_from i room s) ≡ false
unfolding sanitize_from
sanitize_from-no_slash i zero s = refl
sanitize_from-no_slash i (suc room) [] = refl
sanitize_from-no_slash i (suc room) (c ∷ s) = ground (arith, sanitize_from-no_slash (suc i) room s)

length-sanitize_from : (i room : ℕ) (s : Str) → length (sanitize_from i room s) ≤ room
unfolding sanitize_from
length-sanitize_from i zero s = omega arith
length-sanitize_from i (suc room) [] = omega arith
length-sanitize_from i (suc room) (c ∷ s) = omega (arith, length-sanitize_from (suc i) room s)

sanitize_from-not_hidden :
    (room : ℕ) (s : Str) → starts_with_byte b'.' (sanitize_from 0 room s) ≡ false
unfolding sanitize_from
sanitize_from-not_hidden zero s = refl
sanitize_from-not_hidden (suc room) [] = refl
sanitize_from-not_hidden (suc room) (c ∷ s) = ground arith

or_disk-IsComponent :
    (s : Str) → has_byte b'/' s ≡ false → starts_with_byte b'.' s ≡ false → IsComponent (or_disk s)
unfolding or_disk
or_disk-IsComponent [] slash dot = record { nonempty = refl; no_slash = refl; not_hidden = refl }
or_disk-IsComponent (c ∷ s) slash dot = record {
  nonempty = refl;
  no_slash = slash;
  not_hidden = dot;
}

length-or_disk : (n : ℕ) (s : Str) → 4 ≤ n → length s ≤ n → length (or_disk s) ≤ n
unfolding or_disk
length-or_disk n [] h k = h
length-or_disk n (c ∷ s) h k = k

-- Into a buffer of more than four bytes, `sanitize_label` makes of any label one path component that
-- fits: not empty, without a slash, and not starting with a dot.
pub sanitize_label-IsComponent :
    (room : ℕ) (label : Str)
    → 4 ≤ room
    → IsComponent (sanitize_label room label) × (length (sanitize_label room label) ≤ room)
unfolding sanitize_label
sanitize_label-IsComponent room label h = (
  or_disk-IsComponent (sanitize_from 0 room label) (sanitize_from-no_slash 0 room label)
      (sanitize_from-not_hidden room label),
  length-or_disk room (sanitize_from 0 room label) h (length-sanitize_from 0 room label),
)

-- An ordinary label is taken as it is.
sanitize_from-id :
    (i room : ℕ) (s : Str)
    → length s ≤ room
    → has_byte b'/' s ≡ false
    → (i ≢ 0) ⊎ (starts_with_byte b'.' s ≡ false)
    → sanitize_from i room s ≡ s
unfolding sanitize_from
sanitize_from-id i zero [] h slash dot = refl
sanitize_from-id i zero (c ∷ s) h slash dot = absurd (omega arith)
sanitize_from-id i (suc room) [] h slash dot = refl
sanitize_from-id i (suc room) (c ∷ s) h slash dot =
    ground (arith, sanitize_from-id (suc i) room s (omega arith) (ground arith) (inl (omega arith)))

-- A label that is already one path component and fits the buffer is used unchanged.
pub sanitize_label_id :
    (room : ℕ) (label : Str)
    → IsComponent label
    → length label ≤ room
    → sanitize_label room label ≡ label
unfolding sanitize_label
sanitize_label_id room [] v fits = cc v.nonempty
sanitize_label_id room (c ∷ s) v fits =
    rw (sanitize_from-id 0 room (c ∷ s) fits v.no_slash (inr v.not_hidden), or_disk) refl

-- ===== src/Fm/Trash/Escapes.antt =====
-- The path of a file in the trash is read back as it was written.
use isde.Common.{
  ap, ◌∙◌, ℕ, suc, ◌+◌, ◌-◌, ◌/◌, ◌%◌, ◌<◌, ◌≡◌, refl, ◌==◌, ltb, Bool, true, false, ◌&&◌, [], ◌∷◌,
  ◌++◌, Option, none, some, Str, codes, length, all, all-append, Bool-cases, inl, inr, arith,
}
use isde.Common.Stdio.{behind, is_plain, fgets-line, before-end, before-none, lacks, plain-lacks}
use isde.Fm.Trash.{
  is_kept, hex_digit, escaped, url_encode_path, trash_info, hex_value, strtol_hex, url_decode,
  path_max, decoded, read_lines, read_trashinfo_path,
}

abbrev pub is_byte : ℕ → Bool
is_byte c = ltb 0 c && ltb c 256

-- The bytes of a C string.
abbrev pub IsPath : Str → Type 0
IsPath s = all is_byte s ≡ true

hex_value-hex_digit : (d : ℕ) → d < 16 → hex_value (hex_digit d) ≡ some d
unfolding hex_value hex_digit
hex_value-hex_digit d h = ground arith

strtol_hex-hex_digit : (c : ℕ) → c < 256 → strtol_hex (hex_digit (c / 16)) (hex_digit (c % 16)) ≡ c
unfolding strtol_hex
strtol_hex-hex_digit c h =
    rw (hex_value-hex_digit (c / 16) (omega arith), hex_value-hex_digit (c % 16) (omega arith))
      (omega arith)

url_decode-kept : (c : ℕ) (s : Str) → (c == 37) ≡ false → url_decode (c ∷ s) ≡ c ∷ url_decode s
unfolding url_decode
url_decode-kept c [] h = refl
url_decode-kept c (a ∷ []) h = refl
url_decode-kept c (a ∷ b ∷ s) h = rw (url_decode, h) refl

kept-not_percent : (c : ℕ) → is_kept c ≡ true → (c == 37) ≡ false
unfolding is_kept
kept-not_percent c e = ground arith

url_decode-percent :
    (c : ℕ) (s : Str)
    → c < 256
    → url_decode (37 ∷ hex_digit (c / 16) ∷ hex_digit (c % 16) ∷ s) ≡ c ∷ url_decode s
unfolding url_decode
url_decode-percent c s h = ap (λ d. d ∷ url_decode s) (strtol_hex-hex_digit c h)

url_decode-escaped :
    (c : ℕ) (s : Str) → is_byte c ≡ true → url_decode (escaped c ++ s) ≡ c ∷ url_decode s
unfolding escaped
url_decode-escaped c s h = elim (Bool-cases (is_kept c)) [
  | inl e ↦ rw e (url_decode-kept c s (kept-not_percent c e))
  | inr e ↦ rw e (url_decode-percent c s (ground arith))
]

url_decode-url_encode_path : (p : Str) → IsPath p → url_decode (url_encode_path p) ≡ p
unfolding url_encode_path url_decode
url_decode-url_encode_path [] h = refl
url_decode-url_encode_path (c ∷ p) h =
    url_decode-escaped c (url_encode_path p) (ground arith)
    ∙ ap (λ s. c ∷ s) (url_decode-url_encode_path p (ground arith))

escaped-plain : (c : ℕ) → is_byte c ≡ true → all is_plain (escaped c) ≡ true
unfolding escaped hex_digit is_kept
escaped-plain c h = ground arith

url_encode_path-plain : (p : Str) → IsPath p → all is_plain (url_encode_path p) ≡ true
unfolding url_encode_path
url_encode_path-plain [] h = refl
url_encode_path-plain (c ∷ p) h = ground (
  arith,
  all-append is_plain (escaped c) (url_encode_path p),
  escaped-plain c (ground arith),
  url_encode_path-plain p (ground arith),
)

path-lacks : (p : Str) → IsPath p → lacks 0 p ≡ true
path-lacks [] h = refl
path-lacks (c ∷ p) h = ground (arith, path-lacks p (ground arith))

decoded-url_encode_path : (p : Str) → IsPath p → decoded (url_encode_path p ++ 10 ∷ []) ≡ p
decoded-url_encode_path p h =
    let (no_newline, no_zero) = plain-lacks (url_encode_path p) (url_encode_path-plain p h) in
    rw
      (
        before-none 0 (url_encode_path p ++ 10 ∷ []) no_zero,
        before-end 10 (url_encode_path p) [] no_newline,
        url_decode-url_encode_path p h,
        before-none 0 p (path-lacks p h),
      )
      refl

abbrev after_line : ℕ → Str × Str → Option Str
after_line fuel (line, left) = elim (behind (codes "Path=") line) [
  | some val ↦ some (decoded val)
  | none ↦ read_lines fuel left
]

-- One round of the loop, at a line that fits.
read_lines-line :
    (fuel : ℕ) (c : ℕ) (xs rest : Str)
    → all is_plain (c ∷ xs) ≡ true
    → length (c ∷ xs) < path_max - 1
    → read_lines (suc fuel) (c ∷ xs ++ 10 ∷ rest) ≡ after_line fuel (c ∷ xs ++ 10 ∷ [], rest)
unfolding read_lines
read_lines-line fuel c xs rest plain fits =
    ap (after_line fuel) (fgets-line (path_max - 1) (c ∷ xs) rest plain fits)

-- The path of a trashed file, of bytes from 1 to 255, is read back from its .trashinfo file when its line in the
-- file, with the newline, is shorter than PATH_MAX.
pub read_trashinfo_path-trash_info :
    (p date : Str)
    → IsPath p
    → length (url_encode_path p) + 6 < path_max
    → read_trashinfo_path (trash_info p date) ≡ some p
unfolding read_trashinfo_path trash_info
read_trashinfo_path-trash_info p date h fits =
    let enc = url_encode_path p in
    let left = codes "DeletionDate=" ++ (date ++ 10 ∷ []) in
    let plain = url_encode_path-plain p h in
    read_lines-line _ 91 (codes "Trash Info]") (codes "Path=" ++ (enc ++ 10 ∷ left)) refl
      (omega arith)
    ∙ read_lines-line _ 80 (codes "ath=" ++ enc) left plain (omega (arith, fits))
    ∙ ap some (decoded-url_encode_path p h)

-- ===== src/Platform/ConfigWrite/Deleted.antt =====
-- A section that is deleted is gone, and what the file says of all other sections stays.
use isde.Common.{
  ap, sym, ◌∙◌, ℕ, ◌+◌, ◌≤◌, ◌≡◌, refl, ltb, Bool, true, false, ◌&&◌, List, [], ◌∷◌, Option, none,
  some, Str, str_eq, str_eq_refl, length, if◌then◌else◌, all, Bool-cases, Option-cases, inl, inr,
  arith,
}
use isde.Platform.ConfigWrite.{
  trimmed, starts, is_header, lines_of, skipped_to, without_section, delete_section,
}
use isde.Platform.ConfigWrite.Lookup.{IsSection, inside_line, get, is_header_unique}
use isde.Platform.ConfigWrite.Files.{is_line, lines_of-is_line, lines_of-printed_lines}
use isde.Platform.ConfigWrite.Written.{lines_in, value_in}

abbrev pub opens : (section line : Str) → Bool
opens s l = starts 91 (trimmed l) && is_header s (trimmed l)

-- How often a section stands in a file.
unfoldable pub headers : (section : Str) → List Str → ℕ
headers s [] = 0
headers s (l ∷ ls) = (if opens s l then 1 else 0) + headers s ls

module _ (s : Str) where
  get-headers_zero : (k : Str) (ls : List Str) → headers s ls ≡ 0 → get s k false ls ≡ none
  unfolding headers get
  get-headers_zero k [] h = refl
  get-headers_zero k (l ∷ ls) h = ground (arith, get-headers_zero k ls)

  headers-skipped_to : (ls : List Str) → headers s (skipped_to ls) ≤ headers s ls
  unfolding headers skipped_to
  headers-skipped_to [] = omega arith
  headers-skipped_to (l ∷ ls) = ground (arith, headers-skipped_to ls)

  without_section-headers :
      (ls out : List Str) → without_section s ls ≡ some out → headers s out + 1 ≤ headers s ls
  unfolding headers without_section
  without_section-headers [] out e = cc
  without_section-headers (l ∷ ls) out e = elim (Bool-cases (opens s l)) [
    | inl h ↦ ground (arith, headers-skipped_to ls)
    | inr h ↦ elim (Option-cases (without_section s ls)) [
      | inl n ↦ ground arith
      | inr (r, n) ↦ ground (arith, without_section-headers ls r n)
    ]
  ]

  without_section-none : (ls : List Str) → without_section s ls ≡ none → headers s ls ≡ 0
  unfolding headers without_section
  without_section-none [] e = refl
  without_section-none (l ∷ ls) e = elim (Option-cases (without_section s ls)) [
    | inl n ↦ ground (arith, without_section-none ls n)
    | inr (r, n) ↦ absurd (ground arith)
  ]

  all-skipped_to : (ls : List Str) → all is_line ls ≡ true → all is_line (skipped_to ls) ≡ true
  unfolding skipped_to
  all-skipped_to [] h = refl
  all-skipped_to (l ∷ ls) h = ground (arith, all-skipped_to ls)

  all-without_section :
      (ls out : List Str)
      → all is_line ls ≡ true
      → without_section s ls ≡ some out
      → all is_line out ≡ true
  unfolding without_section
  all-without_section [] out h e = cc
  all-without_section (l ∷ ls) out h e = elim (Bool-cases (opens s l)) [
    | inl o ↦ ground (arith, all-skipped_to ls)
    | inr o ↦ elim (Option-cases (without_section s ls)) [
      | inl n ↦ ground arith
      | inr (r, n) ↦ ground (arith, all-without_section ls r (ground arith) n)
    ]
  ]

module _ (s s' k' : Str) (sec : IsSection s) (sec' : IsSection s')
    (differ : str_eq s s' ≡ false) where
  opens-other : (t : Str) → is_header s t ≡ true → is_header s' t ≡ false
  opens-other t h = elim (Bool-cases (is_header s' t)) [
    | inr n ↦ n
    | inl h' ↦ absurd (
        let same : str_eq s s' ≡ true =
          rw (is_header_unique s s' t sec sec' h h') (str_eq_refl s') in
        cc)
  ]

  get-at_header :
      (b : Bool) (l : Str) (ls : List Str)
      → starts 91 (trimmed l) ≡ true
      → get s' k' b (l ∷ ls) ≡ get s' k' (is_header s' (trimmed l)) ls
  unfolding get
  get-at_header b l ls h = ground arith

  get-closed :
      (l : Str) (ls : List Str)
      → starts 91 (trimmed l) ≡ false
      → get s' k' false (l ∷ ls) ≡ get s' k' false ls
  unfolding get
  get-closed l ls h = rw h refl

  -- Up to the next header the other section stays closed.
  get-skipped_to : (b : Bool) (ls : List Str) → get s' k' false ls ≡ get s' k' b (skipped_to ls)
  unfolding skipped_to
  get-skipped_to b [] = unfold get in refl
  get-skipped_to b (l ∷ ls) = elim (Bool-cases (starts 91 (trimmed l))) [
    | inl h ↦ rw h (get-at_header false l ls h ∙ sym (get-at_header b l ls h))
    | inr h ↦ rw h (get-closed l ls h ∙ get-skipped_to b ls)
  ]

  get-without_section :
      (b : Bool) (ls out : List Str)
      → without_section s ls ≡ some out
      → get s' k' b ls ≡ get s' k' b out
  unfolding get without_section
  get-without_section b [] out e = cc
  get-without_section b (l ∷ ls) out e = elim (Bool-cases (opens s l)) [
    | inl o ↦ ground (arith, opens-other (trimmed l) (ground arith), get-skipped_to b ls)
    | inr o ↦ elim (Option-cases (without_section s ls)) [
      | inl n ↦ ground arith
      | inr (r, n) ↦ ground (arith, get-without_section (inside_line s' l b) ls r n)
    ]
  ]

  -- Deleting a section whose file opens for writing: what the file says of the keys of every other section stays;
  -- of the deleted section, of which the file has one header at most, no key is left. The names have the bytes of
  -- bare keys and dots only, and the lines have less than 1023 bytes.
  pub delete_section-value_in :
      (file out : Option Str) (k : Str)
      → all (λ l. ltb (length l) 1023) (lines_in file) ≡ true
      → headers s (lines_in file) ≤ 1
      → delete_section true s file ≡ (true, out)
      → (value_in s' k' out ≡ value_in s' k' file) × (value_in s k out ≡ none)
  unfolding delete_section
  delete_section-value_in none out k short once e =
      let o = sym (ap (λ r. r.1) e) in
      (ap (value_in s' k') o, ap (value_in s k) o ∙ unfold get in refl)
  delete_section-value_in (some bytes) out k short once e =
      elim (Option-cases (without_section s (lines_of bytes))) [
        | inl n ↦
            let o = sym (ap (λ r. r.1) (rw (n, delete_section) at e)) in
            (
              ap (value_in s' k') o,
              ap (value_in s k) o
                  ∙ get-headers_zero s k (lines_of bytes)
                      (without_section-none s (lines_of bytes) n),
            )
        | inr (r, n) ↦
            let o = sym (ap (λ r. r.1) (rw (n, delete_section) at e)) in
            let back =
              lines_of-printed_lines r
                (all-without_section s (lines_of bytes) r (lines_of-is_line bytes short) n) in
            (
              ap (value_in s' k') o
                  ∙ ap (get s' k' false) back
                  ∙ sym (get-without_section false (lines_of bytes) r n),
              ap (value_in s k) o
                  ∙ ap (get s k false) back
                  ∙ get-headers_zero s k r
                      (omega (arith, without_section-headers s (lines_of bytes) r n, once)),
            )
      ]

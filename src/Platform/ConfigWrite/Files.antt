-- ===== src/Platform/ConfigWrite/Files.antt =====
-- Lines that are short are read back as they were written.
use isde.Common.{
  ap, ◌∙◌, ℕ, zero, suc, ◌≡◌, ◌≤◌, refl, ltb, Bool, true, ◌&&◌, List, [], ◌∷◌, ◌++◌, Str, length,
  length-append, all, arith,
}
use isde.Common.Stdio.{
  fgets, before, is_plain, fgets-line, before-end, before-none, lacks, plain-lacks,
}
use isde.Platform.ConfigWrite.{chomped, read_lines, lines_of, printed_lines}

abbrev pub is_line : Str → Bool
is_line l = all is_plain l && ltb (length l) 1023

before-lacks : (s : Str) → lacks 0 (before 0 s) ≡ true
before-lacks [] = refl
before-lacks (c ∷ s) = ground (arith, before-lacks s)

before-plain : (s : Str) → lacks 0 s ≡ true → all is_plain (before 10 s) ≡ true
before-plain [] h = refl
before-plain (c ∷ s) h = ground (arith, before-plain s)

-- What is read holds no newline and no zero byte.
read_lines-plain : (fuel : ℕ) (file : Str) → all (all is_plain) (read_lines fuel file) ≡ true
unfolding read_lines
read_lines-plain zero file = refl
read_lines-plain (suc fuel) [] = refl
read_lines-plain (suc fuel) (c ∷ file) =
    let (line, left) = fgets 1023 (c ∷ file) in
    ground (arith, before-plain (before 0 line) (before-lacks line), read_lines-plain fuel left)

-- The lines of a file that are short are lines as `is_line` wants them.
pub lines_of-is_line :
    (file : Str)
    → all (λ l. ltb (length l) 1023) (lines_of file) ≡ true
    → all is_line (lines_of file) ≡ true
unfolding lines_of
lines_of-is_line file h = both (lines_of file) (read_lines-plain (length file) file) h
  where
    both :
        (ls : List Str)
        → all (all is_plain) ls ≡ true
        → all (λ l. ltb (length l) 1023) ls ≡ true
        → all is_line ls ≡ true
    both [] p q = refl
    both (l ∷ ls) p q = ground (arith, both ls (ground arith) (ground arith))

chomped-line : (l : Str) → all is_plain l ≡ true → chomped (l ++ 10 ∷ []) ≡ l
chomped-line l h =
    let (no_newline, no_zero) = plain-lacks l h in
    rw (before-none 0 (l ++ 10 ∷ []) no_zero, before-end 10 l [] no_newline) refl

abbrev next_line : ℕ → Str × Str → List Str
next_line fuel r = chomped r.0 ∷ read_lines fuel r.1

read_lines-line :
    (fuel : ℕ) (l rest : Str)
    → is_line l ≡ true
    → read_lines (suc fuel) (l ++ 10 ∷ rest) ≡ l ∷ read_lines fuel rest
unfolding read_lines
read_lines-line fuel [] rest h = ap (next_line fuel) (fgets-line 1023 [] rest refl (omega arith))
read_lines-line fuel (c ∷ l) rest h =
    ap (next_line fuel) (fgets-line 1023 (c ∷ l) rest (ground arith) (ground arith))
    ∙ ap (λ x. x ∷ read_lines fuel rest) (chomped-line (c ∷ l) (ground arith))

read_lines-printed_lines :
    (ls : List Str) (fuel : ℕ)
    → all is_line ls ≡ true
    → length (printed_lines ls) ≤ fuel
    → read_lines fuel (printed_lines ls) ≡ ls
unfolding read_lines
read_lines-printed_lines [] zero h f = refl
read_lines-printed_lines [] (suc fuel) h f = refl
read_lines-printed_lines (l ∷ ls) zero h f =
    absurd (omega (arith, length-append l (10 ∷ printed_lines ls), f))
read_lines-printed_lines (l ∷ ls) (suc fuel) h f =
    read_lines-line fuel l (printed_lines ls) (ground arith)
    ∙ ap (λ xs. l ∷ xs)
        (read_lines-printed_lines ls fuel (ground arith)
          (omega (arith, length-append l (10 ∷ printed_lines ls), f)))

pub lines_of-printed_lines :
    (ls : List Str) → all is_line ls ≡ true → lines_of (printed_lines ls) ≡ ls
unfolding lines_of
lines_of-printed_lines ls h = read_lines-printed_lines ls _ h (omega arith)

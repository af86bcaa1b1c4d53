-- ===== src/Platform/ConfigWrite/Lookup.antt =====
-- What the lines of a TOML file say of a key: the first line with it in a section of its name.
use mathlib.Core.List.{append_assoc}
use isde.Common.{
  ap, sym, ◌∙◌, ℕ, zero, suc, ◌≤◌, ◌<◌, ◌≡◌, refl, ◌==◌, leb, Bool, true, false, not, ◌&&◌, ◌||◌,
  List, [], ◌∷◌, ◌++◌, Option, none, some, Str, codes, length, length-append, take, all, is_empty,
  Bool-cases, Option-cases, inl, inr, if◌then◌else◌, arith,
}
use isde.Common.Stdio.{behind}
use isde.Platform.ConfigWrite.{
  trimmed, starts, section_header, ends_or_space, is_header, is_key, is_comment, entry,
}

-- The bytes of bare keys, and the dot of nested sections.
abbrev pub is_name : ℕ → Bool
is_name c =
    (leb 65 c && leb c 90)
    || ((leb 97 c && leb c 122)
        || ((leb 48 c && leb c 57) || ((c == 45) || ((c == 95) || (c == 46)))))

abbrev pub IsName : Str → Type 0
IsName s = (is_empty s ≡ false) × (all is_name s ≡ true)

-- A section whose header fits the buffer.
abbrev pub IsSection : Str → Type 0
IsSection s = IsName s × (length s < 254)

abbrev pub says : (key line : Str) → Bool
says key line = not (starts 91 line) && not (is_comment line) && is_key key line

abbrev pub value_behind : Option Str → Str
value_behind none = []
value_behind (some after) = elim (trimmed after) [ [] ↦ [] | c ∷ s ↦ trimmed s ]

-- Whether a line behind which the section is `inside` is inside.
abbrev pub inside_line : (section line : Str) → Bool → Bool
inside_line section line inside =
    if starts 91 (trimmed line) then is_header section (trimmed line) else inside

unfoldable pub inside_after : (section : Str) → Bool → List Str → Bool
inside_after section inside [] = inside
inside_after section inside (l ∷ ls) = inside_after section (inside_line section l inside) ls

unfoldable pub get : (section key : Str) → (inside : Bool) → List Str → Option Str
get section key inside [] = none
get section key inside (l ∷ ls) =
    let rest = get section key (inside_line section l inside) ls in
    if inside && says key (trimmed l) then some (value_behind (behind key (trimmed l))) else rest

abbrev pub or_else : Option Str → Option Str → Option Str
or_else none o = o
or_else (some v) o = some v

pub get-append :
    (s k : Str) (b : Bool) (xs ys : List Str)
    → get s k b (xs ++ ys) ≡ or_else (get s k b xs) (get s k (inside_after s b xs) ys)
unfolding get inside_after
get-append s k b [] ys = refl
get-append s k b (x ∷ xs) ys = elim (Bool-cases (b && says k (trimmed x))) [
  | inl e ↦ rw e refl
  | inr e ↦ rw e (get-append s k (inside_line s x b) xs ys)
]

pub inside_after-append :
    (s : Str) (b : Bool) (xs ys : List Str)
    → inside_after s b (xs ++ ys) ≡ inside_after s (inside_after s b xs) ys
unfolding inside_after
inside_after-append s b [] ys = refl
inside_after-append s b (x ∷ xs) ys = inside_after-append s (inside_line s x b) xs ys

-- The prefix that `behind` finds is there.
behind-some : (p t r : Str) → behind p t ≡ some r → t ≡ p ++ r
behind-some [] t r e = ground arith
behind-some (p ∷ ps) [] r e = cc
behind-some (p ∷ ps) (c ∷ t) r e = ground (arith, behind-some ps t r)

pub behind-append : (p r : Str) → behind p (p ++ r) ≡ some r
behind-append [] r = refl
behind-append (p ∷ ps) r = ground (arith, behind-append ps r)

abbrev stops : Str → Bool
stops [] = false
stops (c ∷ s) = not (is_name c)

-- A name ends where the first byte is that no name has.
name_unique :
    (xs ys r r' : Str)
    → all is_name xs ≡ true
    → all is_name ys ≡ true
    → stops r ≡ true
    → stops r' ≡ true
    → xs ++ r ≡ ys ++ r'
    → xs ≡ ys
name_unique [] [] r r' hx hy h h' e = refl
name_unique [] (y ∷ ys) r r' hx hy h h' e = absurd (ground arith)
name_unique (x ∷ xs) [] r r' hx hy h h' e = absurd (ground arith)
name_unique (x ∷ xs) (y ∷ ys) r r' hx hy h h' e =
    ground (arith, name_unique xs ys r r' (ground arith) (ground arith) h h')

has_equal-stops : (r : Str) → starts 61 (trimmed r) ≡ true → stops r ≡ true
has_equal-stops [] h = cc
has_equal-stops (c ∷ s) h = ground arith

is_key-split : (k t : Str) → is_key k t ≡ true → (r : Str) × (t ≡ k ++ r) × (stops r ≡ true)
unfolding is_key
is_key-split k t h = elim (Option-cases (behind k t)) [
  | inl e ↦ absurd (let h' = rw e at h in cc)
  | inr (r, e) ↦ (r, behind-some k t r e, has_equal-stops r (rw e at h))
]

-- A line has one key.
pub is_key_unique :
    (k k' t : Str)
    → all is_name k ≡ true
    → all is_name k' ≡ true
    → is_key k t ≡ true
    → is_key k' t ≡ true
    → k ≡ k'
is_key_unique k k' t n n' h h' =
    let (r, e, stop) = is_key-split k t h in
    let (r', e', stop') = is_key-split k' t h' in name_unique k k' r r' n n' stop stop' (sym e ∙ e')

take-all : (n : ℕ) (xs : Str) → length xs ≤ n → take n xs ≡ xs
take-all zero [] h = refl
take-all zero (x ∷ xs) h = absurd (omega arith)
take-all (suc n) [] h = refl
take-all (suc n) (x ∷ xs) h = ap (λ r. x ∷ r) (take-all n xs (omega arith))

section_header-IsSection : (s : Str) → IsSection s → section_header s ≡ 91 ∷ s ++ 93 ∷ []
section_header-IsSection s h =
    take-all 255 (91 ∷ s ++ 93 ∷ []) (omega (arith, h.1, length-append s (93 ∷ [])))

ends_or_space-some : (o : Option Str) → ends_or_space o ≡ true → (r : Str) × (o ≡ some r)
ends_or_space-some none h = cc
ends_or_space-some (some r) h = (r, refl)

is_header-split :
    (s t : Str) → IsSection s → is_header s t ≡ true → (r : Str) × (t ≡ 91 ∷ s ++ 93 ∷ r)
unfolding is_header
is_header-split s t sec h =
    let (r, e) = ends_or_space-some (behind (section_header s) t) h in
    let e' = behind-some (section_header s) t r e in
    (
      r,
      e'
          ∙ ap (λ p. p ++ r) (section_header-IsSection s sec)
          ∙ ap (λ p. 91 ∷ p) (append_assoc s (93 ∷ []) r),
    )

-- A line is the header of one section.
pub is_header_unique :
    (s s' t : Str)
    → IsSection s
    → IsSection s'
    → is_header s t ≡ true
    → is_header s' t ≡ true
    → s ≡ s'
is_header_unique s s' t sec sec' h h' =
    let (r, e) = is_header-split s t sec h in
    let (r', e') = is_header-split s' t sec' h' in
    name_unique s s' (93 ∷ r) (93 ∷ r') sec.0.1 sec'.0.1 refl refl (ap tail (sym e ∙ e'))
  where
    tail : Str → Str
    tail [] = []
    tail (c ∷ r) = r

behind_self : (p : Str) → behind p p ≡ some []
behind_self [] = refl
behind_self (c ∷ p) = ground (arith, behind_self p)

-- The header that the code writes is the section's.
pub is_header-written : (s : Str) → IsSection s → is_header s (91 ∷ s ++ 93 ∷ []) ≡ true
unfolding is_header
is_header-written s sec =
    ap (λ p. ends_or_space (behind p (91 ∷ s ++ 93 ∷ []))) (section_header-IsSection s sec)
    ∙ ap ends_or_space (behind_self (91 ∷ s ++ 93 ∷ []))

trimmed-name : (k r : Str) → IsName k → trimmed (k ++ r) ≡ k ++ r
trimmed-name [] r h = cc
trimmed-name (c ∷ k) r h = ground arith

-- The line that the code writes gives the key its value, behind white space.
module _ (k v : Str) (h : IsName k) where
  pub trimmed-entry : trimmed (entry k v) ≡ entry k v
  trimmed-entry = trimmed-name k (codes " = " ++ v) h

  pub starts-entry : starts 91 (entry k v) ≡ false
  starts-entry = first k h
    where
      first : (k : Str) → IsName k → starts 91 (k ++ (codes " = " ++ v)) ≡ false
      first [] h = cc
      first (c ∷ k) h = ground arith

  pub says-entry : says k (trimmed (entry k v)) ≡ true
  unfolding is_key
  says-entry = rw (trimmed-entry, starts-entry, behind-append k (codes " = " ++ v)) (no_comment k h)
    where
      no_comment :
          (k : Str) → IsName k → (not (is_comment (k ++ (codes " = " ++ v))) && true) ≡ true
      no_comment [] h = cc
      no_comment (c ∷ k) h = ground arith

  pub value_behind-entry : value_behind (behind k (trimmed (entry k v))) ≡ trimmed v
  value_behind-entry = rw (trimmed-entry, behind-append k (codes " = " ++ v)) refl

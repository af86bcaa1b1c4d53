-- ===== src/Platform/ConfigWrite/Locate.antt =====
-- Where the loop of `write_value` finds the key, or the end of the section.
use mathlib.Core.List.{append-nil, append_assoc}
use mathlib.Core.Path.{subst}
use isde.Common.{
  ap, sym, ◌∙◌, ℕ, suc, ◌≡◌, refl, Bool, true, false, not, ◌&&◌, ◌||◌, List, [], ◌∷◌, ◌++◌, Option,
  none, some, is_some, Str, length, length-append, Bool-cases, inl, inr, if◌then◌else◌, arith,
}
use isde.Platform.ConfigWrite.{
  trimmed, starts, is_comment, is_key, Scan, scan_line, scan_lines, start_scan,
}
use isde.Platform.ConfigWrite.Lookup.{
  says, inside_line, inside_after, get, get-append, inside_after-append,
}

module _ (s k : Str) where
  abbrev pub inside : List Str → Bool
  inside = inside_after s false

  abbrev pub found : List Str → Option Str
  found = get s k false

  -- The first line with the key is at i.
  pub record KeyAt (ls : List Str) (i : ℕ) : Type 0 where
    pub pre : List Str
    pub line : Str
    pub post : List Str
    pub splits : ls ≡ pre ++ line ∷ post
    pub at : length pre ≡ i
    pub is_inside : inside pre ≡ true
    pub not_before : found pre ≡ none
    pub matches : says k (trimmed line) ≡ true

  -- Before the line i the section is open.
  pub record EndAt (ls : List Str) (i : ℕ) : Type 0 where
    pub pre : List Str
    pub post : List Str
    pub splits : ls ≡ pre ++ post
    pub at : length pre ≡ i
    pub is_inside : inside pre ≡ true

  abbrev pub KeyInfo : Option ℕ → List Str → Type 0
  KeyInfo none ls = found ls ≡ none
  KeyInfo (some i) ls = KeyAt ls i

  abbrev pub EndInfo : Option ℕ → List Str → Type 0
  EndInfo none ls = Unit {0}
  EndInfo (some i) ls = EndAt ls i

  -- What the variables of the loop say of the lines that it read.
  pub record Located (st : Scan) (ls : List Str) : Type 0 where
    pub target : st.in_target ≡ inside ls
    pub key : KeyInfo st.key_line ls
    pub end : EndInfo st.section_end ls
    pub started : (st.in_target || is_some st.key_line) && not (is_some st.section_start) ≡ false
    pub ended :
        not (is_some st.section_start)
          || st.in_target
          || is_some st.key_line
          || is_some st.section_end
        ≡ true

  KeyAt-more : {ls : List Str} {i : ℕ} (l : Str) → KeyAt ls i → KeyAt (ls ++ l ∷ []) i
  KeyAt-more l f = record {
    pre = f.pre;
    line = f.line;
    post = f.post ++ l ∷ [];
    splits = ap (λ xs. xs ++ l ∷ []) f.splits ∙ append_assoc f.pre (f.line ∷ f.post) (l ∷ []);
    at = f.at;
    is_inside = f.is_inside;
    not_before = f.not_before;
    matches = f.matches;
  }

  EndAt-more : {ls : List Str} {i : ℕ} (l : Str) → EndAt ls i → EndAt (ls ++ l ∷ []) i
  EndAt-more l f = record {
    pre = f.pre;
    post = f.post ++ l ∷ [];
    splits = ap (λ xs. xs ++ l ∷ []) f.splits ∙ append_assoc f.pre f.post (l ∷ []);
    at = f.at;
    is_inside = f.is_inside;
  }

  EndInfo-more : (o : Option ℕ) (ls : List Str) (l : Str) → EndInfo o ls → EndInfo o (ls ++ l ∷ [])
  EndInfo-more none ls l e = tt
  EndInfo-more (some i) ls l e = EndAt-more l e

  inside-last : (ls : List Str) (l : Str) → inside (ls ++ l ∷ []) ≡ inside_line s l (inside ls)
  unfolding inside_after
  inside-last ls l = inside_after-append s false ls (l ∷ [])

  -- A line that does not say the key for the section.
  found-last :
      (ls : List Str) (l : Str)
      → found ls ≡ none
      → inside ls && says k (trimmed l) ≡ false
      → found (ls ++ l ∷ []) ≡ none
  unfolding get
  found-last ls l e h = get-append s k false ls (l ∷ []) ∙ rw (e, h) refl

  KeyInfo-more :
      (o : Option ℕ) (ls : List Str) (l : Str)
      → KeyInfo o ls
      → not (is_some o) && inside ls && says k (trimmed l) ≡ false
      → KeyInfo o (ls ++ l ∷ [])
  KeyInfo-more none ls l e h = found-last ls l e h
  KeyInfo-more (some i) ls l f h = KeyAt-more l f

  EndInfo-here :
      (looking : Bool) (o : Option ℕ) (ls : List Str) (l : Str)
      → EndInfo o ls
      → (not looking || inside ls) ≡ true
      → EndInfo (if looking then some (length ls) else o) (ls ++ l ∷ [])
  EndInfo-here false o ls l e h = EndInfo-more o ls l e
  EndInfo-here true o ls l e h = record {
    pre = ls;
    post = l ∷ [];
    splits = refl;
    at = refl;
    is_inside = h;
  }

  KeyInfo-here :
      (o : Option ℕ) (ls : List Str) (l : Str)
      → KeyInfo o ls
      → is_some o ≡ false
      → inside ls ≡ true
      → says k (trimmed l) ≡ true
      → KeyAt (ls ++ l ∷ []) (length ls)
  KeyInfo-here none ls l e n i h = record {
    pre = ls;
    line = l;
    post = [];
    splits = refl;
    at = refl;
    is_inside = i;
    not_before = e;
    matches = h;
  }
  KeyInfo-here (some j) ls l e n i h = cc

  scan_line-Located :
      (st : Scan) (ls : List Str) (l : Str)
      → Located st ls
      → Located (scan_line s k (length ls) l st) (ls ++ l ∷ [])
  unfolding scan_line
  scan_line-Located st ls l d =
      let looking = st.in_target && not (is_some st.key_line) in
      elim (Bool-cases (starts 91 (trimmed l))) [
        | inl e ↦ rw e (record {
          target = sym (inside-last ls l ∙ rw e refl);
          key = KeyInfo-more st.key_line ls l d.key (rw e (ground arith));
          end = EndInfo-here looking st.section_end ls l d.end (ground (arith, d.target));
          started = ground (arith, d.started);
          ended = ground (arith, d.ended);
        })
        | inr e ↦
            elim (Bool-cases (looking && not (is_comment (trimmed l)) && is_key k (trimmed l))) [
              | inl e' ↦
                  rw (e, e')
                    (record {
                      target = d.target ∙ sym (inside-last ls l ∙ rw e refl);
                      key =
                          KeyInfo-here st.key_line ls l d.key (ground arith)
                            (ground (arith, d.target)) (rw e (ground arith));
                      end = EndInfo-more st.section_end ls l d.end;
                      started = ground (arith, d.started);
                      ended = ground (arith, d.ended);
                    })
              | inr e' ↦
                  rw (e, e')
                    (record {
                      target = d.target ∙ sym (inside-last ls l ∙ rw e refl);
                      key = KeyInfo-more st.key_line ls l d.key (rw e (ground (arith, d.target)));
                      end = EndInfo-more st.section_end ls l d.end;
                      started = d.started;
                      ended = d.ended;
                    })
            ]
      ]

  scan_lines-Located :
      (ls : List Str) (st : Scan) (read : List Str) (i : ℕ)
      → length read ≡ i
      → Located st read
      → Located (scan_lines s k i ls st) (read ++ ls)
  unfolding scan_lines
  scan_lines-Located [] st read i e d = subst (Located st) (sym (append-nil read)) d
  scan_lines-Located (l ∷ ls) st read i e d =
      let next =
        subst (λ j. Located (scan_line s k j l st) (read ++ l ∷ [])) e
          (scan_line-Located st read l d) in
      subst (Located (scan_lines s k (suc i) ls (scan_line s k i l st)))
        (append_assoc read (l ∷ []) ls)
        (scan_lines-Located ls (scan_line s k i l st) (read ++ l ∷ []) (suc i)
          (omega (arith, e, length-append read (l ∷ []))) next)

  -- The loop over all lines.
  pub scan-Located : (ls : List Str) → Located (scan_lines s k 0 ls start_scan) ls
  unfolding inside_after get
  scan-Located ls =
      scan_lines-Located ls start_scan [] 0 refl
        (record { target = refl; key = refl; end = tt; started = refl; ended = refl })

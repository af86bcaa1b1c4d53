-- ===== src/Platform/ConfigWrite/Edit.antt =====
-- What `write_value` writes: the key's line is replaced, or the key is inserted or appended.
use mathlib.Core.List.{append-nil}
use isde.Common.{
  ap, sym, ◌∙◌, ℕ, suc, ◌+◌, ◌≡◌, ◌<◌, refl, ◌==◌, Bool, true, false, not, ◌&&◌, ◌||◌, List, [],
  ◌∷◌, ◌++◌, Option, none, some, is_some, Str, length, if◌then◌else◌, arith,
}
use isde.Platform.ConfigWrite.{entry, Scan, scan_lines, start_scan, write_lines, new_lines}
use isde.Platform.ConfigWrite.Locate.{inside, found, KeyAt, EndAt, Located, scan-Located}

module _ (s k v : Str) where
  -- Behind the line of the key, and behind the end of the section, the lines are kept.
  write_lines-behind_key :
      (st : Scan) (j i : ℕ) (ls : List Str)
      → st.key_line ≡ some j
      → j < i
      → is_some st.section_start ≡ true
      → write_lines s k v st i true ls ≡ ls
  unfolding write_lines
  write_lines-behind_key st j i [] e l b = rw b refl
  write_lines-behind_key st j i (x ∷ ls) e l b =
      let ih = write_lines-behind_key st j (suc i) ls e (omega arith) b in
      let differs : (i == j) ≡ false = ground arith in ground (arith, e, b, ih, differs)

  write_lines-behind_end :
      (st : Scan) (j i : ℕ) (ls : List Str)
      → st.key_line ≡ none
      → st.section_end ≡ some j
      → j < i
      → is_some st.section_start ≡ true
      → write_lines s k v st i true ls ≡ ls
  unfolding write_lines
  write_lines-behind_end st j i [] e e' l b = rw b refl
  write_lines-behind_end st j i (x ∷ ls) e e' l b =
      let ih = write_lines-behind_end st j (suc i) ls e e' (omega arith) b in
      let differs : (i == j) ≡ false = ground arith in ground (arith, e, e', b, ih, differs)

  write_lines-key :
      (st : Scan) (i : ℕ) (pre : List Str) (line : Str) (post : List Str)
      → st.key_line ≡ some (length pre + i)
      → is_some st.section_start ≡ true
      → write_lines s k v st i false (pre ++ line ∷ post) ≡ pre ++ entry k v ∷ post
  unfolding write_lines
  write_lines-key st i [] line post e b =
      let here : (i == (0 + i)) ≡ true = ground arith in
      let ih = write_lines-behind_key st (0 + i) (suc i) post e (omega arith) b in
      ground (arith, e, here, ih)
  write_lines-key st i (x ∷ pre) line post e b =
      let e' : st.key_line ≡ some (length pre + suc i) = e ∙ ap some (omega arith) in
      let ih = write_lines-key st (suc i) pre line post e' b in
      let differs : (i == (length pre + suc i)) ≡ false = ground arith in
      ground (arith, e', b, ih, differs)

  write_lines-end :
      (st : Scan) (i : ℕ) (pre post : List Str)
      → st.key_line ≡ none
      → st.section_end ≡ some (length pre + i)
      → is_some st.section_start ≡ true
      → write_lines s k v st i false (pre ++ post) ≡ pre ++ entry k v ∷ post
  unfolding write_lines
  write_lines-end st i [] [] e e' b = rw (e, b) refl
  write_lines-end st i [] (x ∷ post) e e' b =
      let here : (i == (0 + i)) ≡ true = ground arith in
      let ih = write_lines-behind_end st (0 + i) (suc i) post e e' (omega arith) b in
      ground (arith, e, e', b, here, ih)
  write_lines-end st i (x ∷ pre) post e e' b =
      let e2 : st.section_end ≡ some (length pre + suc i) = e' ∙ ap some (omega arith) in
      let ih = write_lines-end st (suc i) pre post e e2 b in
      let differs : (i == (length pre + suc i)) ≡ false = ground arith in
      ground (arith, e, e2, b, ih, differs)

  abbrev new_section : List Str
  new_section = [] ∷ (91 ∷ s ++ 93 ∷ []) ∷ entry k v ∷ []

  write_lines-none :
      (st : Scan) (i : ℕ) (ls : List Str)
      → st.key_line ≡ none
      → st.section_start ≡ none
      → write_lines s k v st i false ls ≡ ls ++ new_section
  unfolding write_lines
  write_lines-none st i [] e b = rw (e, b) refl
  write_lines-none st i (x ∷ ls) e b =
      let ih = write_lines-none st (suc i) ls e b in ground (arith, e, b, ih)

  -- The three edits.
  pub data Edited (ls : List Str) : List Str → Type 0 where
    replaced :
        {i : ℕ} (f : KeyAt s k ls i) {out : List Str}
        → out ≡ f.pre ++ entry k v ∷ f.post
        → Edited ls out
    inserted :
        {i : ℕ} (f : EndAt s k ls i) {out : List Str}
        → found s k ls ≡ none
        → out ≡ f.pre ++ entry k v ∷ f.post
        → Edited ls out
    appended :
        {out : List Str}
        → found s k ls ≡ none
        → inside s k ls ≡ false
        → out ≡ ls ++ ([] ∷ (91 ∷ s ++ 93 ∷ []) ∷ entry k v ∷ [])
        → Edited ls out

  abbrev scanned : Bool → Option ℕ → Option ℕ → Option ℕ → Scan
  scanned b key end start = record {
    in_target = b;
    key_line = key;
    section_end = end;
    section_start = start;
  }

  write_lines-Edited :
      (b : Bool) (key end start : Option ℕ) (ls : List Str)
      → Located s k (scanned b key end start) ls
      → not (is_some start) || is_some key || is_some end ≡ true
      → Edited ls (write_lines s k v (scanned b key end start) 0 false ls)
  write_lines-Edited b (some i) end (some j) ls d h =
      let f = d.key in
      replaced f (
        ap (write_lines s k v (scanned b (some i) end (some j)) 0 false) f.splits
        ∙ write_lines-key (scanned b (some i) end (some j)) 0 f.pre f.line f.post
            (ap some (omega (arith, f.at))) refl)
  write_lines-Edited b (some i) end none ls d h = absurd (ground (arith, d.started))
  write_lines-Edited b none (some i) (some j) ls d h =
      let f = d.end in
      inserted f d.key (
        ap (write_lines s k v (scanned b none (some i) (some j)) 0 false) f.splits
        ∙ write_lines-end (scanned b none (some i) (some j)) 0 f.pre f.post refl
            (ap some (omega (arith, f.at))) refl)
  write_lines-Edited b none none (some j) ls d h = cc
  write_lines-Edited b none end none ls d h =
      appended d.key (sym d.target ∙ ground (arith, d.started))
        (write_lines-none (scanned b none end none) 0 ls refl refl)

  closed_end :
      (b : Bool) (key end start : Option ℕ) (ls : List Str)
      → Located s k (scanned b key end start) ls
      → Edited ls (
          write_lines s k v
            (if b && not (is_some end)
              then record (scanned b key end start) { section_end = some (length ls) }
              else scanned b key end start)
            0
            false
            ls)
  closed_end true key none start ls d =
      let here : EndAt s k ls (length ls) = record {
        pre = ls;
        post = [];
        splits = sym (append-nil ls);
        at = refl;
        is_inside = sym d.target;
      } in
      write_lines-Edited true key (some (length ls)) start ls
        (record {
          target = d.target;
          key = d.key;
          end = here;
          started = d.started;
          ended = ground (arith, d.ended);
        })
        (ground arith)
  closed_end true key (some i) start ls d =
      write_lines-Edited true key (some i) start ls d (ground arith)
  closed_end false key end start ls d =
      write_lines-Edited false key end start ls d (ground (arith, d.ended))

  pub new_lines-Edited : (ls : List Str) → Edited ls (new_lines s k v ls)
  unfolding new_lines
  new_lines-Edited ls =
      let st = scan_lines s k 0 ls start_scan in
      closed_end st.in_target st.key_line st.section_end st.section_start ls (scan-Located s k ls)

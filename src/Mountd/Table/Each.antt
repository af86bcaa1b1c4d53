-- ===== src/Mountd/Table/Each.antt =====
-- A property of every entry of the device table, through each operation on the table.
use isde.Common.{◌≡◌, inl, inr, List, [], ◌∷◌, some, arith, Str, str_eq, Bool-cases}
use mathlib.Core.Path.{subst}
use isde.Mountd.Device.{Device}
use isde.Mountd.Table.{
  find_device, remove_device, push_back, store_device, set_back, last, butlast, fill_gap,
}

-- A property of every entry.
abbrev pub All : (Device → Type 0) → List Device → Type 0
All P [] = Unit {0}
All P (d ∷ ds) = P d × All P ds

module _ (P : Device → Type 0) where
  pub All-store : (e : Device) (ds : List Device) → P e → All P ds → All P (store_device e ds)
  unfolding store_device
  All-store e [] h v = tt
  All-store e (d ∷ ds) h v = ground (arith, All-store e ds h v.1, h)

  pub All-find :
      (p : Str) (ds : List Device) (d : Device) → All P ds → find_device p ds ≡ some d → P d
  unfolding find_device
  All-find p [] d v h = cc
  All-find p (x ∷ ds) d v h = elim (Bool-cases (str_eq x.dev_path p)) [
    | inl hit ↦ let e : x ≡ d = ground arith in subst P e v.0
    | inr miss ↦ All-find p ds d v.1 (ground arith)
  ]

  pub All-push_back : (e : Device) (ds : List Device) → P e → All P ds → All P (push_back e ds)
  All-push_back e [] h v = (h, tt)
  All-push_back e (d ∷ ds) h v = (v.0, All-push_back e ds h v.1)

  All-butlast :
      (d : Device) (ds : List Device) → P d → All P ds → All P (butlast d ds) × P (last d ds)
  All-butlast d [] h v = (tt, h)
  All-butlast d (e ∷ ds) h v = let w = All-butlast e ds v.0 v.1 in ((h, w.0), w.1)

  All-fill_gap : (ds : List Device) → All P ds → All P (fill_gap ds)
  unfolding fill_gap
  All-fill_gap [] v = tt
  All-fill_gap (d ∷ ds) v = let w = All-butlast d ds v.0 v.1 in (w.1, w.0)

  pub All-remove : (p : Str) (ds : List Device) → All P ds → All P (remove_device p ds)
  unfolding remove_device
  All-remove p [] v = tt
  All-remove p (d ∷ ds) v = elim (Bool-cases (str_eq d.dev_path p)) [
    | inl e ↦ rw e (All-fill_gap ds v.1)
    | inr e ↦ rw e (v.0, All-remove p ds v.1)
  ]

  pub All-set_back : (e : Device) (ds : List Device) → P e → All P ds → All P (set_back e ds)
  unfolding set_back
  All-set_back e [] h v = tt
  All-set_back e (d ∷ []) h v = (h, tt)
  All-set_back e (d ∷ c ∷ ds) h v = (v.0, All-set_back e (c ∷ ds) h v.1)

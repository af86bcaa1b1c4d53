-- ===== src/Mountd/Table/Add.antt =====
-- Every branch of `mountd_add_device` (mountd/src/devices.c).
use isde.Common.{
  ℕ, suc, ◌≤◌, ◌<◌, ◌≡◌, refl, zero, ap, inl, inr, Bool, true, List, [], ◌∷◌, Option, none, some,
  arith, Str, str_eq, str_eq_iff, length, take, if◌then◌else◌, Option-cases, leb, ◌||◌, is_some,
}
use isde.Mountd.Device.{Device, max_devices, dev_path_len}
use isde.Mountd.Table.Laws.{
  IsTable, find-push_back, find-push_back-some, push_back-Distinct, length-push_back,
}
use isde.Mountd.Table.{find_device, add_device, push_back, set_back, new_device}

take-long : (n : ℕ) (s : Str) → length s ≤ n → take n s ≡ s
take-long zero [] h = refl
take-long zero (c ∷ s) h = absurd (omega arith)
take-long (suc n) [] h = refl
take-long (suc n) (c ∷ s) h = ap (◌∷◌ c) (take-long n s (omega arith))

module _ (p label vendor fs_type : Str) (ejectable : Bool) (ds : List Device)
    (fits : length p < dev_path_len) where
  unfoldable pub fresh : Device
  fresh = new_device p label vendor fs_type ejectable

  pub fresh-dev_path : fresh.dev_path ≡ p
  unfolding fresh
  fresh-dev_path = take-long 255 p (omega arith)

  -- Every branch of `add_device`: refused without a change when the path is tracked or the table is
  -- full, and otherwise the new entry stands at the end.
  pub add-cases : add_device p label vendor fs_type ejectable ds ≡ (
      if is_some (find_device p ds) || leb max_devices (length ds)
      then none
      else some (fresh, push_back fresh ds))
  unfolding add_device fresh
  add-cases = ground arith

  pub find-add :
      (q : Str)
      → find_device p ds ≡ none
      → find_device q (push_back fresh ds) ≡ (if str_eq p q then some fresh else find_device q ds)
  find-add q untracked = elim (Option-cases (find_device q ds)) [
    | inl e ↦ rw (e, ← fresh-dev_path) (find-push_back q fresh ds e)
    | inr (d, e) ↦ ground (arith, e, find-push_back-some q fresh d ds e, untracked, str_eq_iff p q)
  ]

  -- What a successful `add_device` says of the table before it.
  pub add-inv :
      {e : Device} {es : List Device}
      → add_device p label vendor fs_type ejectable ds ≡ some (e, es)
      → (e ≡ fresh)
        × (es ≡ push_back fresh ds)
        × (find_device p ds ≡ none)
        × (length ds < max_devices)
  add-inv h = ground (arith, add-cases)

pub push_back-IsTable :
    (e : Device) (ds : List Device)
    → IsTable ds
    → find_device e.dev_path ds ≡ none
    → length ds < max_devices
    → IsTable (push_back e ds)
push_back-IsTable e ds v untracked room = record {
  distinct = push_back-Distinct e ds v.distinct untracked;
  bounded = omega (arith, length-push_back e ds);
}

pub set_back-push_back :
    (e d : Device) (ds : List Device) → set_back e (push_back d ds) ≡ push_back e ds
unfolding set_back
set_back-push_back e d [] = refl
set_back-push_back e d (a ∷ []) = refl
set_back-push_back e d (a ∷ b ∷ ds) = ap (◌∷◌ a) (set_back-push_back e d (b ∷ ds))

-- What `add_device` may answer for a table.
abbrev pub AddDone : Str → List Device → Option (Device × List Device) → Type 0
AddDone p ds none = (is_some (find_device p ds) || leb max_devices (length ds)) ≡ true
AddDone p ds (some (e, es)) =
    IsTable es
    × (find_device p ds ≡ none)
    × ((q : Str) → find_device q es ≡ (if str_eq p q then some e else find_device q ds))

-- `mountd_add_device` on a path that fits its buffer refuses only a tracked path or a full table, and
-- otherwise gives a well-formed table in which the path, untracked before, finds the new entry and every
-- other path finds what it found before.
pub add_device-AddDone :
    (p label vendor fs_type : Str) (ejectable : Bool) (ds : List Device)
    → length p < dev_path_len
    → IsTable ds
    → AddDone p ds (add_device p label vendor fs_type ejectable ds)
add_device-AddDone p label vendor fs_type ejectable ds fits v =
    answered (add_device p label vendor fs_type ejectable ds) refl
  where
    answered :
        (o : Option (Device × List Device))
        → add_device p label vendor fs_type ejectable ds ≡ o
        → AddDone p ds o
    answered none h = ground (arith, add-cases p label vendor fs_type ejectable ds fits)
    answered (some (e, es)) h =
        let i = add-inv p label vendor fs_type ejectable ds fits h in
        rw (i.0, i.1)
          (
            push_back-IsTable _ ds v
                (rw (fresh-dev_path p label vendor fs_type ejectable ds fits) i.2) i.3,
            i.2,
            λ q. find-add p label vendor fs_type ejectable ds fits q i.2,
          )

-- ===== src/Mountd/Mount/Done.antt =====
-- What a mount, an unmount and an eject may leave of the table, when they succeed and when they fail.
use isde.Common.{
  ◌≡◌, refl, Bool, true, false, List, Option, none, some, arith, Str, str_eq, str_eq_iff, is_some,
  if◌then◌else◌,
}
use isde.Mountd.Device.{Device}
use isde.Mountd.Table.{find_device}
use isde.Mountd.Table.Valid.{IsValid}

-- Where the device of p is mounted; none where it is not mounted or not tracked.
abbrev pub mounted_at : Str → List Device → Option Str
mounted_at p ds = elim (find_device p ds) [
  | none ↦ none
  | some d ↦ if d.is_mounted then some d.mount_point else none
]

abbrev pub is_tracked : Str → List Device → Bool
is_tracked p ds = is_some (find_device p ds)

-- `es` differs from `ds` at most in the entry of p, and is as well formed.
pub record OnlyAt (p : Str) (ds es : List Device) : Type 0 where
  pub others :
      (q : Str) → find_device q es ≡ (if str_eq p q then find_device p es else find_device q ds)
  pub valid : IsValid es

pub only_at :
    {p : Str} {ds es : List Device}
    → ((q : Str) → str_eq p q ≡ false → find_device q es ≡ find_device q ds)
    → IsValid es
    → OnlyAt p ds es
only_at {p} {ds} {es} h v = record { others = λ q. ground (arith, h q, str_eq_iff p q); valid = v }

pub record MountDone (p : Str) (ds : List Device) (mp : Str) (es : List Device) : Type 0 where
  pub rest : OnlyAt p ds es
  pub was_tracked : is_tracked p ds ≡ true
  pub was_free : mounted_at p ds ≡ none
  pub now : mounted_at p es ≡ some mp

pub record MountRefused (p : Str) (ds es : List Device) : Type 0 where
  pub rest : OnlyAt p ds es
  pub same_tracked : is_tracked p es ≡ is_tracked p ds
  pub same_mount : mounted_at p es ≡ mounted_at p ds

pub MountRefused-same : (p : Str) (ds : List Device) → IsValid ds → MountRefused p ds ds
MountRefused-same p ds v = record {
  rest = only_at (λ q h. refl) v;
  same_tracked = refl;
  same_mount = refl;
}

-- An ejected device is not tracked any more.
pub record EjectDone (p : Str) (ds es : List Device) : Type 0 where
  pub rest : OnlyAt p ds es
  pub was_tracked : is_tracked p ds ≡ true
  pub gone : is_tracked p es ≡ false

-- A device that could not be ejected is still tracked, though it may have been unmounted.
pub record EjectRefused (p : Str) (ds es : List Device) : Type 0 where
  pub rest : OnlyAt p ds es
  pub same_tracked : is_tracked p es ≡ is_tracked p ds

pub record UnmountDone (p : Str) (ds es : List Device) : Type 0 where
  pub rest : OnlyAt p ds es
  pub same_tracked : is_tracked p es ≡ is_tracked p ds
  pub was_mounted : is_some (mounted_at p ds) ≡ true
  pub now : mounted_at p es ≡ none

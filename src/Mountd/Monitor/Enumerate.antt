-- ===== src/Mountd/Monitor/Enumerate.antt =====
-- The table that `linux_enumerate_devices` builds.
use isde.Common.{
  ◌≡◌, refl, Bool, true, false, ◌&&◌, List, [], ◌∷◌, Option, none, some, Str, if◌then◌else◌,
}
use isde.Mountd.Device.{Device}
use isde.Mountd.Table.Each.{All, All-push_back}
use isde.Mountd.Table.Valid.{IsValid}
use isde.Mountd.Udev.{UdevDevice, is_removable, is_accepted}
use isde.Mountd.Monitor.{track, enumerated, enumerate_devices}
use isde.Mountd.Monitor.New.{FitsNode, IsNew, track-IsNew}
use isde.Mountd.Monitor.Valid.{NewEntry-IsValid}
use isde.Mountd.Refresh.Valid.{NotOurs}

abbrev pub AllNodesFit : List UdevDevice → Type 0
AllNodesFit [] = Unit {0}
AllNodesFit (dev ∷ devs) = FitsNode dev.devnode × AllNodesFit devs

abbrev pub Built : List Device → Type 0
Built ds = IsValid ds × All NotOurs ds

enumerated-Built :
    (dev : UdevDevice) (node : Option Str) (ds : List Device)
    → FitsNode node
    → Built ds
    → Built (enumerated dev node ds)
unfolding enumerated
enumerated-Built dev none ds f v = v
enumerated-Built dev (some p) ds f v = go (track dev p ds) (track-IsNew dev p ds f) refl
  where
    go :
        (t : Option (Device × List Device))
        → IsNew p ds t
        → track dev p ds ≡ t
        → Built (enumerated dev (some p) ds)
    go none n e = rw (e, enumerated) v
    go (some (d, es)) n e =
        rw (e, enumerated)
          (
            NewEntry-IsValid p ds d es n v.0,
            rw n.pushed (All-push_back NotOurs d ds n.not_ours v.1),
          )

pub enumerate_devices-Built :
    (devs : List UdevDevice) (ds : List Device)
    → AllNodesFit devs
    → Built ds
    → Built (enumerate_devices devs ds)
unfolding enumerate_devices
enumerate_devices-Built [] ds f v = v
enumerate_devices-Built (dev ∷ devs) ds f v = enumerate_devices-Built devs _ f.1 (
    chosen (is_accepted dev && is_removable dev) (enumerated dev dev.devnode ds)
      (enumerated-Built dev dev.devnode ds f.0 v))
  where
    chosen : (b : Bool) (es : List Device) → Built es → Built (if b then es else ds)
    chosen true es h = h
    chosen false es h = v

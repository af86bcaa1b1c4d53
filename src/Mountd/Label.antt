-- ===== src/Mountd/Label.antt =====
-- mountd/src/mount_ops.c: `is_fs_type_allowed` and `sanitize_label`.
pub mod Safety
use isde.Common.{
  ℕ, zero, suc, ◌==◌, ◌&&◌, ◌||◌, Bool, true, false, List, [], ◌∷◌, Str, str_eq, codes,
  if◌then◌else◌,
}
use isde.Mountd.Device.{allowed_fs_types}

any_eq : Str → List Str → Bool
any_eq fs [] = false
any_eq fs (t ∷ ts) = if str_eq fs t then true else any_eq fs ts

-- `is_fs_type_allowed`
unfoldable pub is_fs_type_allowed : Str → Bool
unfolding any_eq
is_fs_type_allowed fs = any_eq fs allowed_fs_types

-- The loop of `sanitize_label` from position i on, with room for `room` more bytes. A byte of the
-- label is never zero, since a zero byte ends the string.
sanitize_from : (i room : ℕ) → Str → Str
sanitize_from i zero s = []
sanitize_from i (suc room) [] = []
sanitize_from i (suc room) (c ∷ s) =
    (if c == b'/' then b'_' else if i == 0 && c == b'.' then b'_' else c)
    ∷ sanitize_from (suc i) room s

or_disk : Str → Str
or_disk [] = codes "disk"
or_disk (c ∷ s) = c ∷ s

-- `sanitize_label` into a buffer of `suc room` bytes
unfoldable pub sanitize_label : (room : ℕ) → Str → Str
unfolding sanitize_from or_disk
sanitize_label room label = or_disk (sanitize_from 0 room label)

-- ===== src/Fm/FilesTests.antt =====
-- The names of copies and the paths in the trash at concrete inputs.
use isde.Common.{◌+◌, ◌<◌, ◌≡◌, refl, some, Str, codes, str_eq, Bool, ◌||◌, length, arith}
use isde.Fm.Trash.{
  is_kept, hex_digit, escaped, url_encode_path, trash_info, path_max, read_trashinfo_path,
}
use isde.Fm.Trash.Escapes.{read_trashinfo_path-trash_info}
use isde.Fm.Conflict.{candidate, decimal, first_free, resolve_conflict}
use isde.Fm.Conflict.Free.{Resolved, resolve_conflict-Resolved}

abbrev photo : Str
photo = codes "/home/a b%.png"

encoded : url_encode_path photo ≡ codes "/home/a%20b%25.png"
unfolding url_encode_path escaped is_kept hex_digit
encoded = refl

short : length (url_encode_path photo) + 6 < path_max
unfolding url_encode_path escaped is_kept hex_digit
short = omega arith

read_trashinfo_path-trash_info_example :
    read_trashinfo_path (trash_info photo (codes "2026-11-25T17:00:00")) ≡ some photo
read_trashinfo_path-trash_info_example =
    read_trashinfo_path-trash_info photo (codes "2026-11-25T17:00:00") refl short

-- Two archives are there.
abbrev taken : Str → Bool
taken p = str_eq p (codes "/d/x.tar.gz") || str_eq p (codes "/d/x (2).tar.gz")

third : resolve_conflict taken (codes "/d/x.tar.gz") ≡ codes "/d/x (3).tar.gz"
unfolding resolve_conflict first_free candidate decimal str_eq
third = refl

resolve_conflict-Resolved_example :
    Resolved taken (codes "/d/x.tar.gz") (resolve_conflict taken (codes "/d/x.tar.gz"))
resolve_conflict-Resolved_example = resolve_conflict-Resolved taken (codes "/d/x.tar.gz")

-- ===== src/Platform/Tests.antt =====
-- The writer of configuration files on small files.
use isde.Common.{
  ◌≡◌, refl, true, [], ◌∷◌, ◌++◌, Option, none, some, Str, str_eq, codes, arith, false,
}
use isde.Platform.ConfigWrite.{
  write_value, write_string, write_bool, delete_section, new_lines, scan_lines, scan_line,
  write_lines, lines_of, read_lines, is_header, is_key, without_section, skipped_to,
}
use isde.Common.Stdio.{fgets}
use isde.Platform.ConfigWrite.Deleted.{headers, delete_section-value_in}
use isde.Platform.ConfigWrite.Written.{value_in, write_value-value_in}
use isde.Platform.ConfigWrite.Others.{write_value-value_in_other}

abbrev newline : Str
newline = 10 ∷ []

abbrev settings : Option Str
settings = some (
    codes "[power]"
    ++ (newline
        ++ (codes "lid = 1"
            ++ (newline ++ (codes "[keys]" ++ (newline ++ (codes "  tab = 2" ++ newline)))))))

program : Unit {0}
unfolding write_value write_string write_bool delete_section new_lines scan_lines scan_line
    write_lines lines_of read_lines is_header is_key without_section skipped_to fgets str_eq
program = tt

replaces : write_value true (codes "power") (codes "lid") (codes "3") settings ≡ (
  true,
  some (
      codes "[power]"
      ++ (newline
          ++ (codes "lid = 3"
              ++ (newline ++ (codes "[keys]" ++ (newline ++ (codes "  tab = 2" ++ newline))))))),
)
unfolding program
replaces = refl

inserts : write_bool true (codes "power") (codes "idle") false settings ≡ (
  true,
  some (
      codes "[power]"
      ++ (newline
          ++ (codes "lid = 1"
              ++ (newline
                  ++ (codes "idle = false"
                      ++ (newline
                          ++ (codes "[keys]" ++ (newline ++ (codes "  tab = 2" ++ newline))))))))),
)
unfolding program
inserts = refl

deletes :
    delete_section true (codes "power") settings
    ≡ (true, some (codes "[keys]" ++ (newline ++ (codes "  tab = 2" ++ newline))))
unfolding program
deletes = refl

creates :
    write_string true (codes "a") (codes "b") (codes "c") none
    ≡ (true, some (codes "[a]" ++ (newline ++ (codes "b = " ++ (34 ∷ 99 ∷ 34 ∷ newline)))))
unfolding program
creates = refl

write_value-value_in_example :
    (out : Str) × (write_value true (codes "power") (codes "lid") (codes "3") settings
      ≡ (true, some out))
    × (value_in (codes "power") (codes "lid") (some out) ≡ some (codes "3"))
unfolding program
write_value-value_in_example =
    write_value-value_in (codes "power") (codes "lid") (codes "3") ((refl, refl), omega arith)
      (refl, refl) settings refl refl

abbrev written : Option Str
written = (write_value true (codes "power") (codes "lid") (codes "3") settings).1

write_value-value_in_other_example :
    value_in (codes "keys") (codes "tab") written ≡ value_in (codes "keys") (codes "tab") settings
unfolding program
write_value-value_in_other_example =
    write_value-value_in_other (codes "power") (codes "lid") (codes "keys") (codes "tab")
      (codes "3") ((refl, refl), omega arith) (refl, refl) ((refl, refl), omega arith) (refl, refl)
      refl settings written refl refl refl

abbrev deleted : Option Str
deleted = (delete_section true (codes "power") settings).1

delete_section-value_in_example :
    (value_in (codes "keys") (codes "tab") deleted ≡ value_in (codes "keys") (codes "tab") settings)
    × (value_in (codes "power") (codes "lid") deleted ≡ none)
unfolding program headers
delete_section-value_in_example =
    delete_section-value_in (codes "power") (codes "keys") (codes "tab") ((refl, refl), omega arith)
      ((refl, refl), omega arith) refl settings deleted (codes "lid") refl (omega arith) refl

-- ===== src/Tests/Texts.antt =====
-- Commands, answers and status lines.
use yc_360_script.Prelude.{
  arith, ◌≡◌, refl, true, false, List, [], ◌∷◌, ◌++◌, none, some, Bytes, codes,
}
use yc_360_script.Prelude.Int.{pos}
use yc_360_script.Posix.{World, Reply, issue}
use yc_360_script.Posix.Loop.{forever, rounds}
use yc_360_script.Posix.Trace.{directory, Balanced}
use yc_360_script.Openj9.Translate.{translate_command}
use yc_360_script.Openj9.Unescape.{print_unescaped}
use yc_360_script.Openj9.Unescape.Laws.{escape, print_unescaped-escape, print_unescaped_overrun}
use yc_360_script.Process.{
  Info, found, get_process_info, status_round, process_line, finish_info, alt_lookup_nspid,
  compare_inodes, scan_processes,
}
use yc_360_script.Process.Lookup.{get_process_info-Balanced}

abbrev load : List Bytes
load = codes "load" ∷ codes "/a.so" ∷ codes "true" ∷ []

translate_load : translate_command 8192 load ≡ codes "ATTACH_LOADAGENTPATH(/a.so,)"
unfolding translate_command
translate_load = refl

abbrev dump : List Bytes
dump = codes "dumpheap" ∷ codes "/tmp/h" ∷ []

print_unescaped-escape_example :
    print_unescaped (escape (codes " a=b\n\\c") ++ b'\n' ∷ codes "rest")
    ≡ some (codes " a=b\n\\c" ++ b'\n' ∷ [])
print_unescaped-escape_example =
    print_unescaped-escape (codes " a=b\n\\c") (codes "rest") b'\n'
      (refl, (refl, (refl, (refl, (refl, (refl, (refl, tt))))))) refl

-- Of a letter that is not ASCII the digits of its code are printed.
unicode_lost : print_unescaped (escape (233 ∷ []) ++ 0 ∷ []) ≡ some (codes "u00E9" ++ b'\n' ∷ [])
unfolding print_unescaped
unicode_lost = refl

print_unescaped_overrun_example : print_unescaped (codes "C:" ++ b'\\' ∷ 0 ∷ []) ≡ none
print_unescaped_overrun_example = print_unescaped_overrun (codes "C:") (omega arith)

abbrev start : Info
start = record { uid = 0; gid = 0; nspid = pos 0; nspid_found = false }

abbrev nobody : Info
nobody = record { uid = 0; gid = 0; nspid = pos 5; nspid_found = true }

abbrev line : Bytes → Reply
line b = record { ret = pos 1; bytes = b; number = 0; flag = false }

-- A status file with one line that matters.
abbrev status_file : World
status_file = record { replies = line [] ∷ line (codes "Name:\tjava\n") ∷ []; trace = [] }

no_namespace :
    (get_process_info (pos 40) start status_file).0 ≡ found (record start { nspid = pos 40 })
unfolding get_process_info status_round process_line finish_info alt_lookup_nspid compare_inodes
    scan_processes forever rounds issue
no_namespace = refl

get_process_info-Balanced_example :
    Balanced directory 1 status_file (get_process_info (pos 40) start status_file).1
get_process_info-Balanced_example =
    get_process_info-Balanced directory 1 (pos 40) start (record start { nspid = pos 40 })
      status_file no_namespace

-- ===== src/Openj9/Translate.antt =====
-- `translate_command`: a HotSpot attach command as the command that OpenJ9 understands.
pub mod Laws
use yc_360_script.Prelude.{
  ℕ, suc, ◌-◌, Bool, ◌&&◌, List, [], ◌∷◌, ◌++◌, ltb, leb, if◌then◌else◌, Bytes, codes, bytes_eq,
  get_or, length, ◌≡◌, refl,
}
use yc_360_script.CString.{snprintf}

-- `argc > i ? argv[i] : d`.
abbrev pub arg_or : List Bytes → ℕ → Bytes → Bytes
arg_or argv i d = if ltb i (length argv) then get_or argv i [] else d

abbrev pub attach_loadagent : Bytes
attach_loadagent = codes "ATTACH_LOADAGENT"

abbrev pub attach_diagnostics : Bytes
attach_diagnostics = codes "ATTACH_DIAGNOSTICS:"

-- The text of the command before it is cut to the buffer.
unfoldable pub command_text : List Bytes → Bytes
command_text argv =
    let cmd = get_or argv 0 [] in
    if bytes_eq cmd (codes "load") && leb 2 (length argv)
    then (if ltb 2 (length argv) && bytes_eq (get_or argv 2 []) (codes "true")
        then codes "ATTACH_LOADAGENTPATH("
          ++ (get_or argv 1 [] ++ (codes "," ++ (arg_or argv 3 [] ++ codes ")")))
        else codes "ATTACH_LOADAGENT("
          ++ (get_or argv 1 [] ++ (codes "," ++ (arg_or argv 3 [] ++ codes ")"))))
    else if bytes_eq cmd (codes "jcmd")
    then codes "ATTACH_DIAGNOSTICS:"
      ++ (arg_or argv 1 (codes "help") ++ (codes "," ++ arg_or argv 2 []))
    else if bytes_eq cmd (codes "threaddump")
    then codes "ATTACH_DIAGNOSTICS:Thread.print," ++ arg_or argv 1 []
    else if bytes_eq cmd (codes "dumpheap")
    then codes "ATTACH_DIAGNOSTICS:Dump.heap," ++ arg_or argv 1 []
    else if bytes_eq cmd (codes "inspectheap")
    then codes "ATTACH_DIAGNOSTICS:GC.class_histogram," ++ arg_or argv 1 []
    else if bytes_eq cmd (codes "datadump")
    then codes "ATTACH_DIAGNOSTICS:Dump.java," ++ arg_or argv 1 []
    else if bytes_eq cmd (codes "properties")
    then codes "ATTACH_GETSYSTEMPROPERTIES"
    else if bytes_eq cmd (codes "agentProperties")
    then codes "ATTACH_GETAGENTPROPERTIES"
    else cmd

-- The two `strcpy` branches write 26 and 25 bytes with no test against `bufsize`; every other
-- branch is an `snprintf`. `buf[bufsize - 1] = 0` cuts the result in both cases.
unfoldable pub translate_command : ℕ → List Bytes → Bytes
unfolding command_text
translate_command bufsize argv = snprintf bufsize (command_text argv)

-- ===== src/Openj9/Wire.antt =====
-- The socket traffic: `write_command`, `read_response` and `detach`. Descriptors are those of the
-- system; `malloc` and `realloc` may fail like any call.
pub mod Sending
pub mod Receiving
pub mod Balance
use mathlib.Core.List
use yc_360_script.Prelude.{
  ℕ, ◌+◌, ◌-◌, ◌*◌, Bool, true, false, not, ◌&&◌, ◌||◌, [], ◌∷◌, ◌++◌, Option, none, some, ltb, leb,
  ◌==◌, if◌then◌else◌, Bytes, codes, length, take, drop, get_or, has_prefix,
}
use yc_360_script.Prelude.Int.{ℤ, pos, negsuc, is_neg, eqb_ℤ}
use yc_360_script.CString.{after_strstr, atoi}
use yc_360_script.Openj9.Translate.{attach_loadagent, attach_diagnostics}
use yc_360_script.Openj9.Unescape.{print_unescaped}
use yc_360_script.Posix.{
  read, write, malloc, realloc, free, put, report, World, M, pure, ◌>>=◌, ◌>>◌, issue, call, Chunk,
  failed, got, receive, accepted, then_return,
}
use yc_360_script.Posix.Loop.{Next, again, stop, forever}

-- `bytes <= 0`.
abbrev pub is_not_positive : ℤ → Bool
is_not_positive (pos n) = n == 0
is_not_positive (negsuc n) = true

-- One round of the loop `while (off < len)`; `msg` is the command with its NUL.
unfoldable pub write_round : ℤ → Bytes → ℕ → M (Next ℕ ℤ)
write_round fd msg off w =
    if ltb off (length msg)
    then (let (bytes, w') = call (write fd (drop off msg)) w in
        (
          if is_not_positive bytes
              then stop (negsuc 0)
              else again (off + accepted (length (drop off msg)) bytes),
          w',
        ))
    else (stop (pos 0), w)

unfoldable pub write_command : ℤ → Bytes → M ℤ
unfolding forever write_round
write_command fd cmd = forever (λ _. negsuc 0) (write_round fd (cmd ++ 0 ∷ [])) 0

-- How the loop of `read_response` ends: at an error, at the end of the stream, without memory, or
-- with `off` bytes of which the last is a NUL.
pub data Received : Type 0 where
  no_bytes read_error no_memory : Received
  complete : Bytes → Received

-- The buffer's size, and the bytes read so far, of which there are `off`.
pub record Buffer : Type 0 where
  pub size : ℕ
  pub bytes : Bytes

abbrev pub last_byte : Bytes → ℕ
last_byte buf = get_or buf (length buf - 1) 0

-- After a read that delivered something. `realloc` doubles the size before it asks for memory.
unfoldable pub after_read : Buffer → M (Next Buffer Received)
after_read b w =
    if last_byte b.bytes == 0
    then (stop (complete b.bytes), w)
    else if leb b.size (length b.bytes)
    then (let (p, w') = call (realloc (b.size * 2)) w in
        (if is_neg p then stop no_memory else again (record b { size = b.size * 2 }), w'))
    else (again b, w)

abbrev pub absorb : Buffer → Chunk → M (Next Buffer Received)
absorb b failed w = (stop read_error, w)
absorb b (got []) w = (stop no_bytes, w)
absorb b (got (x ∷ xs)) w = after_read (record b { bytes = b.bytes ++ (x ∷ xs) }) w

unfoldable pub read_round : ℤ → Buffer → M (Next Buffer Received)
unfolding after_read
read_round fd b w =
    let room = b.size - length b.bytes in
    let (c, w') = receive (read fd room) room w in absorb b c w'

unfoldable pub read_all : ℤ → M Received
unfolding forever read_round
read_all fd w =
    let (p, w') = call (malloc 8192) w in
    if is_neg p
    then (no_memory, w')
    else forever (λ _. read_error) (read_round fd) (record { size = 8192; bytes = [] }) w'

-- The result code of a `load`: `strncmp` and `atoi` stop at the NUL that ends the answer.
unfoldable pub load_result : Bytes → ℤ
load_result buf =
    if has_prefix (codes "ATTACH_ACK") buf
    then pos 0
    else if has_prefix (codes "ATTACH_ERR AgentInitializationException") buf
    then atoi (drop 39 buf)
    else negsuc 0

-- `buf[off - 1] = '\n'; fwrite(buf, 1, off, stdout);`
abbrev pub mirrored : Bytes → Bytes
mirrored buf = take (length buf - 1) buf ++ b'\n' ∷ []

-- Print the answer's value where the search found it. `none`: `print_unescaped` left the buffer.
abbrev pub print_value : Option Bytes → M (Option ℤ)
print_value none w = (none, w)
print_value (some out) w = (some (pos 0), (issue free (issue (put out) w).1).1)

abbrev pub mirror : Bytes → ℤ → M (Option ℤ)
mirror buf result w = (some result, (issue free (issue (put (mirrored buf)) w).1).1)

-- `p`: the value that the search found, or NULL.
abbrev pub found : Bytes → Option Bytes → M (Option ℤ)
found buf none w = mirror buf (pos 0) w
found buf (some mem) w = print_value (print_unescaped mem) w

-- The part of `read_response` behind the loop, on a complete answer.
unfoldable pub interpret : Bytes → Bytes → M (Option ℤ)
interpret cmd buf =
    if has_prefix attach_loadagent cmd
    then mirror buf (load_result buf)
    else if has_prefix attach_diagnostics cmd
    then found buf (after_strstr buf (codes "openj9_diagnostics.string_result=") 33)
    else mirror buf (pos 0)

abbrev pub respond : Bytes → Received → M (Option ℤ)
respond cmd no_bytes =
    then_return (issue (report (codes "Unexpected EOF reading response"))) (some (pos 1))
respond cmd read_error =
    then_return (issue (report (codes "Error reading response"))) (some (pos 1))
respond cmd no_memory =
    then_return (issue (report (codes "Failed to allocate memory for response"))) (some (pos 1))
respond cmd (complete buf) = interpret cmd buf

unfoldable pub read_response : ℤ → Bytes → M (Option ℤ)
read_response fd cmd = do r ← read_all fd; respond cmd r

-- `do { bytes = read(fd, buf, 256); } while (bytes > 0 && buf[bytes - 1] != 0);`
abbrev pub drained : Chunk → Next (Unit {0}) (Unit {0})
drained failed = stop tt
drained (got []) = stop tt
drained (got (x ∷ xs)) = if last_byte (x ∷ xs) == 0 then stop tt else again tt

unfoldable pub drain_round : ℤ → Unit {0} → M (Next (Unit {0}) (Unit {0}))
drain_round fd s w = let (c, w') = receive (read fd 256) 256 w in (drained c, w')

unfoldable pub detach : ℤ → M (Unit {0})
detach fd w =
    let (r, w') = write_command fd (codes "ATTACH_DETACHED") w in
    if eqb_ℤ r (pos 0) then forever (λ _. tt) (drain_round fd) tt w' else (tt, w')

-- ===== src/Posix.antt =====
-- The operating system as the attach code (internal/capture/ycattach/posix) sees it. A system
-- call takes the next reply of a script, which stands for whatever the kernel, the JVM at the
-- other end and the C library's allocator answer, and is written to a trace. A script that has
-- run out answers -1 (or NULL) for ever, so every prefix of a run is some script's run.
pub mod Loop
pub mod Trace
pub mod Balance
use yc_360_script.Prelude.{
  ℕ, zero, suc, Bool, true, false, List, [], ◌∷◌, length, take, drop, ◌+◌, Bytes,
}
use yc_360_script.Prelude.Int.{ℤ, pos, negsuc, is_neg}
use Prim.Native.Nat.{min}

pub data OpenMode : Type 0 where
  read_only write_create write_truncate : OpenMode

pub data LockOp : Type 0 where
  lock_ex lock_un : LockOp

pub data Domain : Type 0 where
  af_inet6 af_inet af_unix : Domain

-- The system calls, with the arguments that matter. Descriptors are signed, as in C.
pub data Call : Type 0 where
  open_file : Bytes → OpenMode → ℕ → Call
  creat : Bytes → ℕ → Call
  close : ℤ → Call
  unlink stat : Bytes → Call
  flock : ℤ → LockOp → Call
  socket : Domain → Call
  bind : ℤ → Domain → Call
  listen getsockname accept : ℤ → Call
  connect : ℤ → Bytes → Call
  set_timeout : ℤ → ℕ → Call
  recv read : ℤ → ℕ → Call
  write : ℤ → Bytes → Call
  semget : Bytes → Call
  semop : ℤ → ℤ → Bool → Call
  opendir : Bytes → Call
  readdir closedir : ℤ → Call
  fopen : Bytes → Call
  getline fclose : ℤ → Call
  malloc realloc : ℕ → Call
  free time ignore_sigpipe : Call
  kill : ℤ → ℕ → Call
  nanosleep : ℕ → Call
  geteuid getegid : Call
  seteuid setegid : ℕ → Call
  setns : ℤ → Call
  getenv : Bytes → Call
  put report : Bytes → Call

-- What a call answers: its return value (negative for an error, or for NULL), the bytes that it
-- delivers (data, a line, a file name, a variable's value), a number (a port, a key, an inode, a
-- user) and a flag (the file is a socket, the entry may be a directory).
pub record Reply : Type 0 where
  pub ret : ℤ
  pub bytes : Bytes
  pub number : ℕ
  pub flag : Bool

pub data Event : Type 0 where
  event : Call → Reply → Event

-- The trace has its latest event first.
pub record World : Type 0 where
  pub replies : List Reply
  pub trace : List Event

abbrev pub silence : Reply
silence = record { ret = negsuc 0; bytes = []; number = 0; flag = false }

abbrev pub first_reply : List Reply → Reply
first_reply [] = silence
first_reply (r ∷ rs) = r

abbrev pub M {ℓ} : Type ℓ → Type ℓ
M A = World → A × World

abbrev pub pure {ℓ} : {A : Type ℓ} → A → M A
pure a w = (a, w)

infixl 5 ◌>>=◌ ◌>>◌
abbrev pub ◌>>=◌ {ℓ κ} : {A : Type ℓ} {B : Type κ} → M A → (A → M B) → M B
◌>>=◌ m f w = f (m w).0 (m w).1

abbrev pub ◌>>◌ {ℓ κ} : {A : Type ℓ} {B : Type κ} → M A → M B → M B
◌>>◌ m k w = k (m w).1

unfoldable pub issue : Call → M Reply
issue c w = (
  first_reply w.replies,
  record { replies = drop 1 w.replies; trace = event c (first_reply w.replies) ∷ w.trace },
)

-- Only the return value matters.
abbrev pub call : Call → M ℤ
call c w = ((issue c w).0.ret, (issue c w).1)

-- What `read` and `recv` deliver: an error, or at most as many bytes as were asked for, where no
-- byte means the end of the stream.
pub data Chunk : Type 0 where
  failed : Chunk
  got : Bytes → Chunk

abbrev pub delivered : ℕ → Reply → Chunk
delivered n r = elim (is_neg r.ret) [ true ↦ failed | false ↦ got (take n r.bytes) ]

abbrev pub receive : Call → ℕ → M Chunk
receive c n w = (delivered n (issue c w).0, (issue c w).1)

-- `write` reports an error, or how many of the bytes it took: at most all of them.
abbrev pub count_of : ℤ → ℕ
count_of (pos n) = n
count_of (negsuc n) = 0

abbrev pub accepted : ℕ → ℤ → ℕ
accepted n r = min n (count_of r)

-- Run an action for its effect.
abbrev pub then_return {ℓ κ} : {A : Type ℓ} {B : Type κ} → M A → B → M B
then_return m b w = (b, (m w).1)

-- ===== src/Posix/Trace.antt =====
-- Accounts over a trace: how often a handle of a kind was handed out and given back, what was
-- written to a descriptor and to stdout, and how long the program slept.
use yc_360_script.Prelude.{
  ℕ, ◌+◌, ◌≡◌, arith, Bool, true, false, List, [], ◌∷◌, ◌++◌, ◌==◌, if◌then◌else◌, take,
  length-take, ◌≤◌, length, Bytes,
}
use yc_360_script.Prelude.Int.{ℤ, pos, negsuc, eqb_ℤ}
use yc_360_script.Posix.{
  Call, open_file, creat, close, socket, accept, opendir, closedir, fopen, fclose, write, recv,
  read, put, nanosleep, Reply, Event, event, World, accepted, Chunk, failed, got, delivered,
}

pub data Kind : Type 0 where
  descriptor directory stream : Kind

-- 1 if the integer is the handle `v`.
abbrev pub is : ℕ → ℤ → ℕ
is v (pos n) = if n == v then 1 else 0
is v (negsuc n) = 0

abbrev pub gives : Kind → Call → Bool
gives descriptor (open_file _ _ _) = true
gives descriptor (creat _ _) = true
gives descriptor (socket _) = true
gives descriptor (accept _) = true
gives directory (opendir _) = true
gives stream (fopen _) = true
gives _ _ = false

abbrev pub takes_back : Kind → ℕ → Call → ℕ
takes_back descriptor v (close h) = is v h
takes_back directory v (closedir h) = is v h
takes_back stream v (fclose h) = is v h
takes_back _ v _ = 0

-- How often `v` was handed out, and how often it was given back.
abbrev pub opened : Kind → ℕ → List Event → ℕ
opened k v [] = 0
opened k v (event c r ∷ t) = (if gives k c then is v r.ret else 0) + opened k v t

abbrev pub closed : Kind → ℕ → List Event → ℕ
closed k v [] = 0
closed k v (event c r ∷ t) = takes_back k v c + closed k v t

-- Between `w` and `w'` the handle `v` was handed out `n` times more than it was given back.
abbrev pub Gains : Kind → ℕ → World → World → ℕ → Type 0
Gains k v w w' n =
    opened k v w'.trace + closed k v w.trace ≡ closed k v w'.trace + opened k v w.trace + n

-- Whatever was handed out was given back.
abbrev pub Balanced : Kind → ℕ → World → World → Type 0
Balanced k v w w' = Gains k v w w' 0

-- The bytes that a descriptor took, in order.
abbrev pub sent : ℤ → List Event → Bytes
sent fd [] = []
sent fd (event (write h b) r ∷ t) =
    sent fd t ++ (if eqb_ℤ fd h then take (accepted (length b) r.ret) b else [])
sent fd (event _ _ ∷ t) = sent fd t

-- What `receive` delivered, as bytes.
abbrev pub chunk_bytes : Chunk → Bytes
chunk_bytes failed = []
chunk_bytes (got b) = b

-- The bytes that `recv` and `read` took from a descriptor, in order.
abbrev pub received : ℤ → List Event → Bytes
received fd [] = []
received fd (event (recv h n) r ∷ t) =
    received fd t ++ (if eqb_ℤ fd h then chunk_bytes (delivered n r) else [])
received fd (event (read h n) r ∷ t) =
    received fd t ++ (if eqb_ℤ fd h then chunk_bytes (delivered n r) else [])
received fd (event _ _ ∷ t) = received fd t

-- What was written to stdout, in order.
abbrev pub printed : List Event → Bytes
printed [] = []
printed (event (put b) r ∷ t) = printed t ++ b
printed (event _ _ ∷ t) = printed t

-- Nanoseconds slept, and how often the program slept.
abbrev pub slept : List Event → ℕ
slept [] = 0
slept (event (nanosleep n) r ∷ t) = n + slept t
slept (event _ _ ∷ t) = slept t

abbrev pub naps : List Event → ℕ
naps [] = 0
naps (event (nanosleep n) r ∷ t) = 1 + naps t
naps (event _ _ ∷ t) = naps t

pub eqb_ℤ-self : (a : ℤ) → eqb_ℤ a a ≡ true
eqb_ℤ-self (pos n) = ground arith
eqb_ℤ-self (negsuc n) = ground arith

pub length-delivered : (n : ℕ) (r : Reply) → length (chunk_bytes (delivered n r)) ≤ n
length-delivered n r = ground (arith, length-take n r.bytes)

-- ===== src/Openj9/Files/Accept.antt =====
-- `accept_client` lets through a JVM that sends the session's key, and nobody else; the key is what
-- `write_reply_info` published.
use yc_360_script.Prelude.{
  ℕ, ◌-◌, ◌≤◌, ◌≡◌, ◌≢◌, refl, sym, ◌∙◌, true, [], ◌∷◌, ◌++◌, append_assoc, append-nil, Bytes,
  length, length-append, has_prefix, Bool-cases, inl, inr, arith,
}
use yc_360_script.Prelude.Int.{ℤ, pos, negsuc, is_neg}
use yc_360_script.Posix.{World, issue, call, receive, accept, recv, set_timeout, delivered}
use yc_360_script.Posix.Loop.{again, stop, forever, forever_inv}
use yc_360_script.Posix.Trace.{received, chunk_bytes, eqb_ℤ-self, length-delivered}
use yc_360_script.Openj9.Files.{expected_greeting, recv_round, check_greeting, accept_client}

module _ (fd : ℤ) (before : Bytes) where
  record Filled (buf : Bytes) (w : World) : Type 0 where
    taken : received fd w.trace ≡ before ++ buf
    fits : length buf ≤ 35

  -- `[]` is the early end.
  Full : Bytes → World → Type 0
  Full [] w = Unit
  Full (x ∷ xs) w = (received fd w.trace ≡ before ++ (x ∷ xs)) × (length (x ∷ xs) ≡ 35)

  Full-35 : (buf : Bytes) (w : World) → Filled buf w → 35 ≤ length buf → Full buf w
  unfolding Full
  Full-35 [] w f h = tt
  Full-35 (x ∷ xs) w f h = (f.taken, omega (arith, f.fits))

  recv-Filled :
      (buf : Bytes) (w : World)
      → Filled buf w
      → (let r = receive (recv fd (35 - length buf)) (35 - length buf) w in
          Filled (buf ++ chunk_bytes r.0) r.1)
  unfolding issue
  recv-Filled buf w f = record {
    taken = rw (eqb_ℤ-self fd, f.taken, append_assoc);
    fits = omega (
      arith,
      f.fits,
      length-append buf
          (chunk_bytes (delivered (35 - length buf) (issue (recv fd (35 - length buf)) w).0)),
      length-delivered (35 - length buf) (issue (recv fd (35 - length buf)) w).0,
    );
  }

  recv_round_again :
      (buf : Bytes) (w : World) (buf' : Bytes)
      → Filled buf w
      → (recv_round fd buf w).0 ≡ again buf'
      → Filled buf' (recv_round fd buf w).1
  unfolding recv_round
  recv_round_again buf w buf' f e = ground (arith, recv-Filled buf w f)

  recv_round_stop :
      (buf : Bytes) (w : World) (buf' : Bytes)
      → Filled buf w
      → (recv_round fd buf w).0 ≡ stop buf'
      → Full buf' (recv_round fd buf w).1
  unfolding recv_round Full
  recv_round_stop buf w buf' f e = ground (arith, Full-35 buf w f)

  check_greeting-Full :
      (key : ℕ) (buf : Bytes) (w : World)
      → Full buf w
      → (check_greeting fd key buf w).0 ≢ negsuc 0
      → (received fd (check_greeting fd key buf w).1.trace ≡ before ++ buf)
        × (length buf ≡ 35)
        × (has_prefix (expected_greeting key) buf ≡ true)
  unfolding check_greeting issue Full
  check_greeting-Full key [] w f e = absurd (e refl)
  check_greeting-Full key (x ∷ buf) w f e =
      elim (Bool-cases (has_prefix (expected_greeting key) (x ∷ buf))) [
        | inl same ↦ (rw same f.0, f.1, same)
        | inr other ↦ absurd (e (rw other))
      ]

  greeted-Full :
      (key : ℕ) (w : World)
      → received fd w.trace ≡ before
      → (let r = forever (λ _. []) (recv_round fd) [] w in
          (check_greeting fd key r.0 r.1).0 ≢ negsuc 0
          → (received fd (check_greeting fd key r.0 r.1).1.trace ≡ before ++ r.0)
            × (length r.0 ≡ 35)
            × (has_prefix (expected_greeting key) r.0 ≡ true))
  unfolding Full
  greeted-Full key w h =
      let r = forever (λ _. []) (recv_round fd) [] w in
      check_greeting-Full key r.0 r.1 (
        forever_inv (λ _. []) (recv_round fd) Filled Full (λ _ _ _. tt) recv_round_again
          recv_round_stop [] w (record { taken = h ∙ sym (append-nil before); fits = omega arith }))

check_greeting-result :
    (client : ℤ) (key : ℕ) (buf : Bytes) (w : World) (v : ℕ)
    → (check_greeting client key buf w).0 ≡ pos v
    → client ≡ pos v
unfolding check_greeting
check_greeting-result client key [] w v e = cc
check_greeting-result client key (x ∷ buf) w v e =
    elim (Bool-cases (has_prefix (expected_greeting key) (x ∷ buf))) [
      | inl same ↦ rw same at e
      | inr other ↦ cc (rw other at e)
    ]

greet :
    (client : ℤ) (key : ℕ) (w : World) (fd : ℕ)
    → client ≡ pos fd
    → (let r = forever (λ _. []) (recv_round client) [] w in
        (check_greeting client key r.0 r.1).0 ≡ pos fd
        → (buf : Bytes) × (received (pos fd) (check_greeting client key r.0 r.1).1.trace
            ≡ received (pos fd) w.trace ++ buf)
          × (length buf ≡ 35)
          × (has_prefix (expected_greeting key) buf ≡ true))
greet client key w fd p e =
    let r = forever (λ _. []) (recv_round client) [] w in
    let h = greeted-Full client (received client w.trace) key w refl (λ q. cc (q, e)) in
    rw (← p) (r.0, h.0, h.1, h.2)

-- If `accept_client` returns a connection, then exactly 35 bytes were read from it, and the first 34
-- are the greeting with the 16 hexadecimal digits of the session's key.
pub accept_client-key :
    (s : ℤ) (key : ℕ) (w : World) (fd : ℕ)
    → (accept_client s key w).0 ≡ pos fd
    → (buf : Bytes) × (received (pos fd) (accept_client s key w).1.trace
        ≡ received (pos fd) w.trace ++ buf)
      × (length buf ≡ 35)
      × (has_prefix (expected_greeting key) buf ≡ true)
unfolding accept_client issue
accept_client-key s key w fd e =
    let c = call (accept s) (issue (set_timeout s 5) w).1 in
    let r = forever (λ _. []) (recv_round c.0) [] c.1 in
    elim (Bool-cases (is_neg c.0)) [
      | inl neg ↦ cc (rw neg at e)
      | inr fine ↦
          let e' : (check_greeting c.0 key r.0 r.1).0 ≡ pos fd = rw fine at e in
          rw fine (greet c.0 key c.1 fd (check_greeting-result c.0 key r.0 r.1 fd e') e')
    ]

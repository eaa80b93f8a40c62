-- ===== src/Server/Echo.antt =====
-- The loop of server.cpp that echoes what a connection sends.
use my_coroutine.Common.{
  ℕ, zero, suc, ◌≤◌, ◌≡◌, refl, sym, ap, ◌∙◌, true, false, List, [], ◌∷◌, ◌++◌, ◌==◌, length, arith,
}
use my_coroutine.Common.Int.{ℤ, pos, ltb_ℤ}
use my_coroutine.Hook.{eagain, minus_one}
use my_coroutine.Server.{Connection, Turn, overwrite, echo, echo_loop}

-- The list without its first elements.
unfoldable pub drop : ℕ → List ℕ → List ℕ
drop zero xs = xs
drop (suc n) [] = []
drop (suc n) (x ∷ xs) = drop n xs

overwrite_lem :
    (xs buffer : List ℕ)
    → length xs ≤ length buffer
    → overwrite xs buffer ≡ xs ++ drop (length xs) buffer
unfolding overwrite drop
overwrite_lem [] buffer h = refl
overwrite_lem (x ∷ xs) [] h = absurd (omega arith)
overwrite_lem (x ∷ xs) (b ∷ buffer) h = ap (◌∷◌ x) (overwrite_lem xs buffer (omega arith))

length-overwrite : (xs buffer : List ℕ) → length (overwrite xs buffer) ≡ length buffer
unfolding overwrite
length-overwrite [] buffer = refl
length-overwrite (x ∷ xs) [] = refl
length-overwrite (x ∷ xs) (b ∷ buffer) = ap suc (length-overwrite xs buffer)

positive : (n : ℕ) (v : ℤ) → v ≡ pos (suc n) → ltb_ℤ (pos 0) v ≡ true
positive n v e = ground (arith, e)

-- A turn of the loop for a connection in which read gets n bytes, n from 1 to the size of the
-- buffer, gives write the whole buffer: the n bytes, and after them what the buffer had there
-- before; the buffer keeps that, and the outcome of the turn is what write returns.
pub echo_lem :
    (a : Turn) (c : Connection) (n : ℕ)
    → a.read_answer.value ≡ pos (suc n)
    → length a.data_read ≡ suc n
    → suc n ≤ length c.buffer
    → let message = a.data_read ++ drop (suc n) c.buffer in
      ((echo a c).1.sent ≡ c.sent ++ message ∷ [])
      × (length message ≡ length c.buffer)
      × ((echo a c).1.buffer ≡ message)
      × ((echo a c).0 ≡ a.write_answer.value)
unfolding echo
echo_lem a c n got size fits =
    let same : overwrite a.data_read c.buffer ≡ a.data_read ++ drop (suc n) c.buffer =
      overwrite_lem a.data_read c.buffer (omega (arith, size, fits))
      ∙ ap (λ k. a.data_read ++ drop k c.buffer) size in
    let reads : ltb_ℤ (pos 0) a.read_answer.value ≡ true = positive n a.read_answer.value got in
    (
      rw (echo, reads) (ap (λ m. c.sent ++ m ∷ []) same),
      ap length (sym same) ∙ length-overwrite a.data_read c.buffer,
      rw (echo, reads) same,
      rw (echo, reads) refl,
    )

-- The peer has closed the connection: `read` returns 0, and leaves errno.
abbrev pub AllEof : List Turn → Type 0
AllEof [] = Unit {0}
AllEof (a ∷ turns) = (a.read_answer.value ≡ pos 0) × AllEof turns

echo_eof : (a : Turn) (c : Connection) → a.read_answer.value ≡ pos 0 → echo a c ≡ (pos 0, c)
unfolding echo
echo_eof a c eof = rw eof refl

echo_blocked :
    (a : Turn) (c : Connection)
    → a.read_answer.value ≡ minus_one
    → a.read_answer.errno ≡ eagain
    → echo a c ≡ (minus_one, record c { errno = eagain })
unfolding echo
echo_blocked a c failed e = rw (failed, e) refl

-- While errno is EAGAIN the end of the connection is not noticed.
eof_spins :
    (turns : List Turn) (c : Connection)
    → AllEof turns
    → c.errno ≡ eagain
    → echo_loop turns c ≡ (false, c)
unfolding echo_loop
eof_spins [] c h e = refl
eof_spins (a ∷ turns) c (eof, h) e =
    let again : (c.errno == eagain) ≡ true = rw e refl in
    rw (echo_loop, echo_eof a c eof, again) (eof_spins turns c h e)

-- After a read that has failed with EAGAIN, the loop for a connection does not close it in any
-- number of turns in which read returns 0, that is, after the peer has closed it.
pub eof_ignored :
    (blocked : Turn) (turns : List Turn) (c : Connection)
    → blocked.read_answer.value ≡ minus_one
    → blocked.read_answer.errno ≡ eagain
    → AllEof turns
    → echo_loop (blocked ∷ turns) c ≡ (false, record c { errno = eagain })
unfolding echo_loop
eof_ignored blocked turns c failed e h =
    rw (echo_loop, echo_blocked blocked c failed e)
      (eof_spins turns (record c { errno = eagain }) h refl)

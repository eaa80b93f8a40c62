-- ===== src/Hook/Options.antt =====
-- The flags and options of a socket that has a context: fcntl and setsockopt of Hook.cpp, and what the
-- next calls find of what was set.
use my_coroutine.Common.{
  ℕ, ◌<◌, ◌≡◌, refl, true, false, ◌||◌, some, List, arith, ◌==◌, length, ok, inl, inr, Bool-cases,
  Returns, length-set,
}
use my_coroutine.Common.Int.{ℤ, pos}
use my_coroutine.Common.Family.{update}
use my_coroutine.FdManager.Context.{
  Kernel, fd_ctx, unlimited, set_timeout, set_user_no_block, so_recvtimeo, so_sendtimeo,
}
use my_coroutine.FdManager.Table.{get_in_range}
use my_coroutine.IoManager.FdContexts.{Event}
use my_coroutine.Hook.{World, Here}
use my_coroutine.Hook.Io.{Pass, do_io, io_loop}
use my_coroutine.Hook.Flags.{
  Flags, Argument, flags_argument, no_argument, set_flags, get_flags, put_ctx, fcntl, Timeval,
  timeout_ms, setsockopt,
}
use my_coroutine.Hook.Lookup.{
  looked_up, get_ctx_within, socket_ctx_within, new_socket_ctx, new_socket_sys,
}

module _ (k : Kernel) (p n : ℕ) (w : World) (within : n < length w.fds.datas)
    (sock : k.fstat (pos n) ≡ some true) where
  -- The world after fcntl has set flags.
  abbrev flagged : Flags → World
  flagged arg = put_ctx p (set_user_no_block arg.nonblock (fd_ctx k (pos n)).1) (looked_up k p n w)

  set_flags_lem :
      (answer : Argument → Flags) (arg : Flags)
      → fcntl k p (pos n) answer (set_flags arg) w
        ≡ ok (
          answer (flags_argument (record arg { nonblock = true })),
          flags_argument (record arg { nonblock = true }),
          flagged arg,
        )
  unfolding fcntl
  set_flags_lem answer arg =
      rw (fcntl, socket_ctx_within k p n w within sock, new_socket_sys k (pos n) sock) refl

  get_flags_lem :
      (answer : Argument → Flags)
      → fcntl k p (pos n) answer get_flags w
        ≡ ok (record (answer no_argument) { nonblock = false }, no_argument, looked_up k p n w)
  unfolding fcntl
  get_flags_lem answer =
      rw (fcntl, socket_ctx_within k p n w within sock, (new_socket_ctx k (pos n) sock).2) refl

  do_io-unlimited :
      (here : Here) (info kind : ℕ) (event : Event) (passes : List Pass)
      → w.enabled ≡ true
      → do_io k p here info (pos n) event kind passes w
        ≡ io_loop here info
            (pos n)
            event
            unlimited
            passes
            (record (looked_up k p n w) { infos = update w.infos info 0 })
  unfolding do_io
  do_io-unlimited here info kind event passes on =
      let (is_open, socket, blocking, no_limit) = new_socket_ctx k (pos n) sock in
      rw (do_io, get_ctx_within k p n w false within, is_open, socket, blocking, no_limit kind, on)
        refl

module _ (k : Kernel) (p q n : ℕ) (w : World) (within : n < length w.fds.datas)
    (sock : k.fstat (pos n) ≡ some true) where
  -- fcntl(F_SETFL) on a socket within the table sets O_NONBLOCK whatever its argument says, and a
  -- following fcntl(F_GETFL) returns the flags of the kernel without O_NONBLOCK, also if the
  -- argument had it.
  pub get_flags-set_flags :
      (answer : Argument → Flags) (arg : Flags)
      → Returns
          (λ r.
            (r.1 ≡ flags_argument (record arg { nonblock = true }))
            × Returns
                (λ back. back.0 ≡ record (answer no_argument) { nonblock = false })
                (fcntl k q (pos n) answer get_flags r.2))
          (fcntl k p (pos n) answer (set_flags arg) w)
  get_flags-set_flags answer arg =
      let within' : n < length (flagged k p n w within sock arg).fds.datas =
        omega (arith, length-set w.fds.datas n (some p)) in
      let back = get_flags_lem k q n (flagged k p n w within sock arg) within' sock answer in
      rw (set_flags_lem k p n w within sock answer arg) (refl, rw back refl)

  -- The world after setsockopt has set a timeout.
  abbrev timed : ℕ → Timeval → World
  timed name v =
      let found : World = looked_up k p n w in
      put_ctx p (set_timeout name (timeout_ms v) (found.fds.heap p)) found

  setsockopt_timeout :
      (name : ℕ) (answer : ℤ) (v : Timeval)
      → w.enabled ≡ true
      → (name == so_recvtimeo || name == so_sendtimeo) ≡ true
      → setsockopt k p (pos n) answer (some (name, v)) w ≡ ok (answer, timed name v)
  unfolding setsockopt
  setsockopt_timeout name answer v on e =
      rw (setsockopt, get_in_range k p n false w.fds within, e, on) refl

  setsockopt_other :
      (name : ℕ) (answer : ℤ) (v : Timeval)
      → (name == so_recvtimeo || name == so_sendtimeo) ≡ false
      → setsockopt k p (pos n) answer (some (name, v)) w ≡ ok (answer, w)
  unfolding setsockopt
  setsockopt_other name answer v e = ground (arith, e)

  -- After setsockopt with the hook enabled, on a socket within the table, do_io on the same socket
  -- waits without a timeout, also if the option was one of the two timeouts.
  do_io-setsockopt :
      (here : Here) (info kind name : ℕ) (event : Event) (passes : List Pass) (answer : ℤ)
      (v : Timeval)
      → w.enabled ≡ true
      → Returns
          (λ r.
            do_io k q here info (pos n) event kind passes r.1
            ≡ io_loop here info
                (pos n)
                event
                unlimited
                passes
                (record (looked_up k q n r.1) { infos = update r.1.infos info 0 }))
          (setsockopt k p (pos n) answer (some (name, v)) w)
  do_io-setsockopt here info kind name event passes answer v on =
      let within' : n < length (timed name v).fds.datas =
        omega (arith, length-set w.fds.datas n (some p)) in
      elim (Bool-cases (name == so_recvtimeo || name == so_sendtimeo)) [
        | inl e ↦
            rw (setsockopt_timeout name answer v on e)
              (do_io-unlimited k q n (timed name v) within' sock here info kind event passes on)
        | inr e ↦
            rw (setsockopt_other name answer v e)
              (do_io-unlimited k q n w within sock here info kind event passes on)
      ]

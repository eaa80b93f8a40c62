-- ===== src/Hook/Lookup.antt =====
-- The context of a descriptor as the hooked calls of Hook.cpp find it.
use my_coroutine.Common.{ℕ, ◌<◌, ◌≤◌, ◌≡◌, refl, Bool, true, false, none, some, arith, length, ok}
use my_coroutine.Common.Int.{ℤ, pos}
use my_coroutine.FdManager.Context.{Kernel, fd_ctx, get_timeout, unlimited}
use my_coroutine.FdManager.Table.{replaced, get_in_range, get_beyond}
use my_coroutine.Hook.{World, get_ctx}
use my_coroutine.Hook.Flags.{socket_ctx}

-- The world after a lookup within the table.
abbrev pub looked_up : Kernel → ℕ → ℕ → World → World
looked_up k p n w = record w { fds = replaced k p n w.fds }

pub open_ctx : (k : Kernel) (fd : ℤ) → (fd_ctx k fd).1.is_closed ≡ false
unfolding fd_ctx
open_ctx k fd = refl

-- A new context of a socket is open, has no timeout, and the user has asked for nothing.
pub new_socket_ctx :
    (k : Kernel) (fd : ℤ)
    → k.fstat fd ≡ some true
    → ((fd_ctx k fd).1.is_closed ≡ false)
      × ((fd_ctx k fd).1.is_socket ≡ true)
      × ((fd_ctx k fd).1.user_no_block ≡ false)
      × ((kind : ℕ) → get_timeout kind (fd_ctx k fd).1 ≡ unlimited)
unfolding fd_ctx get_timeout
new_socket_ctx k fd sock = (refl, rw sock refl, refl, λ kind. ground arith)

pub new_socket_sys :
    (k : Kernel) (fd : ℤ) → k.fstat fd ≡ some true → (fd_ctx k fd).1.sys_no_block ≡ true
unfolding fd_ctx
new_socket_sys k fd sock = rw sock refl

module _ (k : Kernel) (p n : ℕ) (w : World) where
  pub get_ctx_within :
      (auto_create : Bool)
      → n < length w.fds.datas
      → get_ctx k p (pos n) auto_create w ≡ ok (some (fd_ctx k (pos n)).1, looked_up k p n w)
  unfolding get_ctx
  get_ctx_within auto_create h = rw (get_ctx, get_in_range k p n auto_create w.fds h) (ground arith)

  pub get_ctx_beyond : length w.fds.datas ≤ n → get_ctx k p (pos n) false w ≡ ok (none, w)
  unfolding get_ctx
  get_ctx_beyond h = rw (get_ctx, get_beyond k p n false w.fds h) refl

  pub socket_ctx_within :
      n < length w.fds.datas
      → k.fstat (pos n) ≡ some true
      → socket_ctx k p (pos n) w ≡ ok (some (p, (fd_ctx k (pos n)).1), looked_up k p n w)
  unfolding socket_ctx fd_ctx
  socket_ctx_within h sock =
      rw (socket_ctx, get_in_range k p n false w.fds h) (ground (arith, sock))

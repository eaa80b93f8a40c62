-- ===== src/FdManager/Context.antt =====
-- class FdCtx: what the program knows of one file descriptor.
use my_coroutine.Common.{
  ℕ, ◌≡◌, refl, Bool, true, false, not, ◌&&◌, Option, none, some, arith, ◌==◌, if◌then◌else◌,
}
use my_coroutine.Common.Int.{ℤ, negsuc}

-- What the kernel answers: `fstat`, as `none` for -1 and else S_ISSOCK of the mode, and whether
-- O_NONBLOCK is among the flags that `fcntl(fd, F_GETFL)` returns.
pub record Kernel : Type 0 where
  pub fstat : ℤ → Option Bool
  pub nonblock : ℤ → Bool

pub record FdCtx : Type 0 where
  pub is_init : Bool
  pub is_socket : Bool
  pub sys_no_block : Bool
  pub user_no_block : Bool
  pub is_closed : Bool
  pub fd : ℤ
  pub recv_timeout : ℤ
  pub send_timeout : ℤ

abbrev pub so_recvtimeo : ℕ
so_recvtimeo = 20

abbrev pub so_sendtimeo : ℕ
so_sendtimeo = 21

-- milliseconds(-1): no timeout
abbrev pub unlimited : ℤ
unlimited = negsuc 0

abbrev pub is_sock : Option Bool → Bool
is_sock none = false
is_sock (some sock) = sock

abbrev answered : Option Bool → Bool
answered none = false
answered (some _) = true

-- FdCtx::init: its value, whether it sets O_NONBLOCK by `fcntl(fd, F_SETFL)`, and the context.
unfoldable pub init : Kernel → FdCtx → Bool × Bool × FdCtx
init k c =
    let stat = k.fstat c.fd in
    if c.is_init then (true, false, c) else (
      answered stat,
      is_sock stat && not (k.nonblock c.fd),
      record c {
        is_init = answered stat;
        is_socket = is_sock stat;
        sys_no_block = is_sock stat;
        user_no_block = false;
        is_closed = false;
        recv_timeout = unlimited;
        send_timeout = unlimited;
      },
    )

-- FdCtx(fd): whether O_NONBLOCK is set, and the context
unfoldable pub fd_ctx : Kernel → ℤ → Bool × FdCtx
unfolding init
fd_ctx k fd =
    let c : FdCtx = record {
      is_init = false;
      is_socket = false;
      sys_no_block = false;
      user_no_block = false;
      is_closed = false;
      fd = fd;
      recv_timeout = unlimited;
      send_timeout = unlimited;
    } in
    let (value, sets, done) = init k c in (sets, done)

unfoldable pub set_timeout : ℕ → ℤ → FdCtx → FdCtx
set_timeout type t c =
    if type == so_recvtimeo then record c { recv_timeout = t } else record c { send_timeout = t }

unfoldable pub get_timeout : ℕ → FdCtx → ℤ
get_timeout type c = if type == so_recvtimeo then c.recv_timeout else c.send_timeout

unfoldable pub set_user_no_block : Bool → FdCtx → FdCtx
set_user_no_block flag c = record c { user_no_block = flag }

unfoldable pub set_sys_no_block : Bool → FdCtx → FdCtx
set_sys_no_block flag c = record c { sys_no_block = flag }

-- A new context is that of a socket exactly if the kernel says so, and then, and only then, it is
-- non-blocking inside; O_NONBLOCK is set for a socket that lacks it and for nothing else; no
-- timeout is set, and the user has asked for nothing.
pub fd_ctx_lem :
    (k : Kernel) (fd : ℤ)
    → ((fd_ctx k fd).1.is_socket ≡ is_sock (k.fstat fd))
      × ((fd_ctx k fd).1.sys_no_block ≡ (fd_ctx k fd).1.is_socket)
      × ((fd_ctx k fd).0 ≡ ((fd_ctx k fd).1.is_socket && not (k.nonblock fd)))
      × ((fd_ctx k fd).1.user_no_block ≡ false)
      × ((type : ℕ) → get_timeout type (fd_ctx k fd).1 ≡ unlimited)
unfolding fd_ctx get_timeout
fd_ctx_lem k fd = (refl, refl, refl, refl, λ type. ground arith)

-- A timeout is read back under the kinds that name it (20, or any other), and the other is kept.
pub get_timeout-set_timeout :
    (type other : ℕ) (t : ℤ) (c : FdCtx)
    → get_timeout other (set_timeout type t c) ≡ (
        if type == so_recvtimeo
        then (if other == so_recvtimeo then t else get_timeout other c)
        else (if other == so_recvtimeo then get_timeout other c else t))
unfolding get_timeout set_timeout
get_timeout-set_timeout type other t c = ground arith

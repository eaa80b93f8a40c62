-- ===== src/Hook/Io.antt =====
-- do_io of Hook.cpp, and the hooked calls that are made of it.
use my_coroutine.Common.{
  ℕ, Bool, true, false, not, ◌||◌, none, some, List, [], ◌∷◌, ◌==◌, if◌then◌else◌, Result, ok,
  ◌>>=◌,
}
use my_coroutine.Common.Int.{ℤ, pos, leb_ℤ}
use my_coroutine.Common.Family.{update}
use my_coroutine.FdManager.Context.{Kernel, get_timeout, so_recvtimeo, so_sendtimeo}
use my_coroutine.IoManager.FdContexts.{Event, read, write}
use my_coroutine.Hook.{
  World, Here, Attempt, Wait, minus_one, fails_with, eintr, eagain, ebadf, get_ctx, wait_event,
}

-- One pass of do_io from `retry` on: what the original function answers, and the wait that follows
-- where it would block.
pub record Pass : Type 0 where
  pub attempt : Attempt
  pub wait : Wait

-- The answers of the system run out while the call has not returned, or it has returned.
pub data Outcome : Type 0 where
  running : World → Outcome
  returned : ℤ → World → Outcome

-- Where a pass leads: back to the original function, or out of do_io.
pub data Next : Type 0 where
  again : World → Next
  leave : ℤ → World → Next

-- return fun(fd, ...)
abbrev pub call_original : List Pass → World → Outcome
call_original [] w = running w
call_original (a ∷ _) w = returned a.attempt.value (record w { errno = a.attempt.errno })

-- After the wait: a failure to add the event, a timeout, or the next attempt.
abbrev pub after_wait : ℕ → Bool × World → Next
after_wait info (added, w) =
    if not added
    then leave minus_one w
    else if w.infos info == 0
    then again w
    else leave minus_one (record w { errno = w.infos info })

-- The body of do_io from `retry` on.
unfoldable pub io_pass : Here → ℕ → ℤ → Event → ℤ → Pass → World → Result Next
io_pass here info fd event to a w =
    let called = record w { errno = a.attempt.errno } in
    if fails_with eintr a.attempt
    then ok (again called)
    else if fails_with eagain a.attempt
    then (do waited ← wait_event here info fd event to a.wait called; ok (after_wait info waited))
    else ok (leave a.attempt.value called)

-- The two loops of do_io, around the original function and back to `retry`.
unfoldable pub io_loop : Here → ℕ → ℤ → Event → ℤ → List Pass → World → Result Outcome
io_loop here info fd event to [] w = ok (running w)
io_loop here info fd event to (a ∷ as') w = io_pass here info fd event to a w >>= λ next.
    elim next [
      | again v ↦ io_loop here info fd event to as' v
      | leave value v ↦ ok (returned value v)
    ]

-- do_io(fd, fun, ..., event, timeout_so, ...). A new context gets the address `p`, the timer_info the
-- address `info`.
unfoldable pub do_io : Kernel → ℕ → Here → ℕ → ℤ → Event → ℕ → List Pass → World → Result Outcome
do_io k p here info fd event kind as' w = if not w.enabled then ok (call_original as' w) else do
  (ctx, found) ← get_ctx k p fd false w
  elim ctx [
    | none ↦ ok (call_original as' found)
    | some c ↦
        if c.is_closed
        then ok (returned minus_one (record found { errno = ebadf }))
        else if not c.is_socket || c.user_no_block
        then ok (call_original as' found)
        else io_loop here info fd event (get_timeout kind c) as'
            (record found { infos = update found.infos info 0 })
  ]

-- The calls that are do_io and nothing else.
pub data IoCall : Type 0 where
  read_call readv_call recv_call recvfrom_call recvmsg_call : IoCall
  write_call writev_call send_call sendto_call sendmsg_call : IoCall

abbrev pub call_event : IoCall → Event
call_event read_call = read
call_event readv_call = read
call_event recv_call = read
call_event recvfrom_call = read
call_event recvmsg_call = read
call_event write_call = write
call_event writev_call = write
call_event send_call = write
call_event sendto_call = write
call_event sendmsg_call = write

abbrev pub call_timeout : IoCall → ℕ
call_timeout read_call = so_recvtimeo
call_timeout readv_call = so_recvtimeo
call_timeout recv_call = so_recvtimeo
call_timeout recvfrom_call = so_recvtimeo
call_timeout recvmsg_call = so_recvtimeo
call_timeout write_call = so_sendtimeo
call_timeout writev_call = so_sendtimeo
call_timeout send_call = so_sendtimeo
call_timeout sendto_call = so_sendtimeo
call_timeout sendmsg_call = so_sendtimeo

unfoldable pub io_call : Kernel → ℕ → Here → ℕ → IoCall → ℤ → List Pass → World → Result Outcome
io_call k p here info call fd as' w =
    do_io k p here info fd (call_event call) (call_timeout call) as' w

-- accept: the descriptor that it returns gets a context, at the address `q`.
unfoldable pub accept : Kernel → ℕ → ℕ → Here → ℕ → ℤ → List Pass → World → Result Outcome
accept k p q here info s as' w = do_io k p here info s read so_recvtimeo as' w >>= λ outcome.
    elim outcome [
      | running v ↦ ok (running v)
      | returned fd v ↦
          if not (leb_ℤ (pos 0) fd)
          then ok (returned fd v)
          else do (ctx, registered) ← get_ctx k q fd true v; ok (returned fd registered)
    ]

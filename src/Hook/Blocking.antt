-- ===== src/Hook/Blocking.antt =====
-- do_io of Hook.cpp as a call that blocks its fiber until the original function has an answer.
use my_coroutine.Common.{
  ℕ, ◌<◌, ◌≡◌, ◌≢◌, refl, Bool, true, false, ◌||◌, inl, inr, Option, none, some, List, [], ◌∷◌,
  arith, if◌then◌else◌, length, ok, Bool-cases,
}
use my_coroutine.Common.Int.{pos}
use my_coroutine.Common.Family.{update}
use my_coroutine.FdManager.Context.{Kernel, unlimited}
use my_coroutine.IoManager.FdContexts.{Event, none_event, FdContext}
use my_coroutine.Hook.{World, Here, Attempt, fails_with, eintr, eagain}
use my_coroutine.Hook.Io.{Pass, Outcome, running, returned, again, leave, io_pass, io_loop, do_io}
use my_coroutine.Hook.Lookup.{new_socket_ctx, looked_up, get_ctx_within}
use my_coroutine.Hook.Waits.{IsInside, IsFree, registered_world, wait_event-unlimited}

-- The answer is not for the caller: the attempt was interrupted, or would block.
abbrev pub is_passing : Attempt → Bool
is_passing a = fails_with eintr a || fails_with eagain a

-- The first answer that is for the caller.
unfoldable pub first_answer : List Pass → Option Attempt
first_answer [] = none
first_answer (a ∷ as') = if is_passing a.attempt then first_answer as' else some a.attempt

-- The call has returned the answer, or it has not returned where there is none.
abbrev pub HasAnswered : Option Attempt → Outcome → Type 0
HasAnswered none (running w) = Unit {0}
HasAnswered none (returned value w) = ⊥
HasAnswered (some a) (running w) = ⊥
HasAnswered (some a) (returned value w) = (value ≡ a.value) × (w.errno ≡ a.errno)

-- The event of the descriptor can be waited for, and no timeout has struck.
abbrev pub IsWaitable : ℕ → ℕ → Event → World → Type 0
IsWaitable info n event w = (w.infos info ≡ 0) × (c : FdContext) × IsFree n event c w

-- epoll takes the event, and while the fiber is away its event is triggered, which unregisters it,
-- and no timeout strikes.
pub record IsAnswered (here : Here) (info n : ℕ) (event : Event) (a : Pass) : Type 0 where
  pub epoll : a.wait.epoll ≡ true
  pub back :
      (c : FdContext) (w : World)
      → w.infos info ≡ 0
      → IsFree n event c w
      → IsWaitable info n event (a.wait.after (registered_world here n event c w))

abbrev pub AllAnswered : Here → ℕ → ℕ → Event → List Pass → Type 0
AllAnswered here info n event [] = Unit {0}
AllAnswered here info n event (a ∷ as') =
    IsAnswered here info n event a × AllAnswered here info n event as'

or_right : {a b : Bool} → a ≡ false → (a || b) ≡ true → b ≡ true
or_right e h = cc (rw e at h)

io_pass_answers :
    (here : Here) (info n : ℕ) (event : Event) (a : Pass) (w : World)
    → is_passing a.attempt ≡ false
    → io_pass here info (pos n) event unlimited a w
      ≡ ok (leave a.attempt.value (record w { errno = a.attempt.errno }))
unfolding io_pass
io_pass_answers here info n event a w e = ground (arith, e)

module _ (here : Here) (s info n : ℕ) (event : Event) (inside : IsInside here s)
    (some_event : event ≢ none_event) where
  io_pass_passing :
      (a : Pass) (w : World)
      → IsAnswered here info n event a
      → IsWaitable info n event w
      → is_passing a.attempt ≡ true
      → (v : World) × (io_pass here info (pos n) event unlimited a w ≡ ok (again v))
        × IsWaitable info n event v
  unfolding io_pass
  io_pass_passing a w answered (calm, c, f) passing =
      let same_free : IsFree n event c (record w { errno = a.attempt.errno }) = record {
        valid = f.valid;
        context = f.context;
        free = f.free;
      } in
      elim (Bool-cases (fails_with eintr a.attempt)) [
        | inl e ↦ (record w { errno = a.attempt.errno }, rw (io_pass, e) refl, (calm, c, same_free))
        | inr e ↦
            let called : World = record w { errno = a.attempt.errno } in
            let free : IsFree n event c called = same_free in
            let (calm', c', f') = answered.back c called calm free in
            (
              a.wait.after (registered_world here n event c called),
              rw
                  (
                    io_pass,
                    e,
                    or_right e passing,
                    wait_event-unlimited here s n event c called inside some_event free info a.wait
                        answered.epoll,
                    calm',
                  )
                  refl,
              (calm', c', f'),
            )
      ]

  io_loop_answers :
      (as' : List Pass) (w : World)
      → AllAnswered here info n event as'
      → IsWaitable info n event w
      → (o : Outcome) × (io_loop here info (pos n) event unlimited as' w ≡ ok o)
        × HasAnswered (first_answer as') o
  unfolding io_loop first_answer
  io_loop_answers [] w all ready = (running w, refl, tt)
  io_loop_answers (a ∷ as') w (answered, all) ready = elim (Bool-cases (is_passing a.attempt)) [
    | inl e ↦
        let (v, e', ready') = io_pass_passing a w answered ready e in
        let (o, e'', meets) = io_loop_answers as' v all ready' in
        (o, rw (io_loop, e', e'') refl, rw e meets)
    | inr e ↦ (
      returned a.attempt.value (record w { errno = a.attempt.errno }),
      rw (io_loop, io_pass_answers here info n event a w e) refl,
      rw e (refl, refl),
    )
  ]

-- do_io with the hook enabled, on a socket within the table and in a fiber of an IOManager, where
-- the event is not registered, epoll takes it, and in every wait the event is triggered, which
-- unregisters it, and no timeout strikes: however often the original function is interrupted or
-- would block, do_io returns the first other answer of it, with its errno, and it has not returned
-- exactly if there is no such answer.
pub do_io_blocks :
    (k : Kernel) (p info n kind s : ℕ) (here : Here) (event : Event) (passes : List Pass)
    (w : World)
    → w.enabled ≡ true
    → n < length w.fds.datas
    → k.fstat (pos n) ≡ some true
    → IsInside here s
    → event ≢ none_event
    → (c : FdContext) → IsFree n event c w
    → AllAnswered here info n event passes
    → (o : Outcome) × (do_io k p here info (pos n) event kind passes w ≡ ok o)
      × HasAnswered (first_answer passes) o
unfolding do_io
do_io_blocks k p info n kind s here event passes w on within sock inside some_event c f all =
    let start : World = record (looked_up k p n w) { infos = update w.infos info 0 } in
    let ready : IsWaitable info n event start =
      (ground arith, c, record { valid = f.valid; context = f.context; free = f.free }) in
    let (is_open, socket, blocking, unlimited_wait) = new_socket_ctx k (pos n) sock in
    let (o, e, meets) =
      io_loop_answers here s info n event inside some_event passes start all ready in
    (
      o,
      rw
          (
            do_io,
            get_ctx_within k p n w false within,
            is_open,
            socket,
            blocking,
            unlimited_wait kind,
            e,
            on,
          )
          refl,
      meets,
    )

-- ===== src/IoManager/Idle/Waiting.antt =====
-- An event of an IOManager while its idle fiber goes round.
use my_coroutine.Common.{◌≡◌, refl, ◌∙◌, true, false, List, [], ◌∷◌, ok, ◌==◌, arith}
use my_coroutine.Common.Int.{ℤ}
use my_coroutine.IoManager.Idle.{Loop, io_stopping, Round, idle_rounds}
use my_coroutine.IoManager.Idle.Rounds.{idle_round_continues}

-- tickle can write to the pipe, and meanwhile nobody touches the event contexts.
pub record IsQuiet (r : Round) : Type 0 where
  pub wrote : r.answers.wrote ≡ true
  pub same_io : (l : Loop) → (r.meanwhile l).io ≡ l.io

abbrev pub AllQuiet : List Round → Type 0
AllQuiet [] = Unit {0}
AllQuiet (r ∷ rounds) = IsQuiet r × AllQuiet rounds

pub not_stopping :
    (now : ℤ) (l : Loop) → (l.io.pending == 0) ≡ false → (io_stopping now l).0 ≡ false
unfolding io_stopping
not_stopping now l h = ground (arith, h)

-- While an event is pending the loop goes on, and changes no event.
pub idle_rounds_wait :
    (rounds : List Round) (l : Loop)
    → AllQuiet rounds
    → (l.io.pending == 0) ≡ false
    → (u : Loop) × (idle_rounds rounds l ≡ ok (false, u)) × (u.io ≡ l.io)
unfolding idle_rounds
idle_rounds_wait [] l quiet some_pending = (l, refl, refl)
idle_rounds_wait (r ∷ rounds) l (quiet, all) some_pending =
    let (next, e, io, _, _) =
      idle_round_continues r.answers l quiet.wrote
        (not_stopping r.answers.asked_at l some_pending) in
    let same : (r.meanwhile next).io ≡ l.io = quiet.same_io next ∙ io in
    let (u, e', io') = idle_rounds_wait rounds (r.meanwhile next) all (rw same some_pending) in
    (u, rw (idle_rounds, e, e') refl, io' ∙ same)

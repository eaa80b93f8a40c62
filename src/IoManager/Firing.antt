-- ===== src/IoManager/Firing.antt =====
-- How the calls that trigger both events of a context trigger them (`fire_if`): what is left of the
-- context, and the tasks that are handed out.
use my_coroutine.Common.{
  Ensures, Ensures-bind, Result, Bool-cases, Option-cases, inl, inr, ◌>>=◌, ◌||◌, ℕ, ◌≡◌, refl, sym,
  Bool, true, false, some, List, [], ◌∷◌, ◌++◌, arith, ap, Option, append_nil, append_assoc,
  if◌then◌else◌, get_elem?, get_elem?-set, ok,
}
use my_coroutine.Common.Family.{update, update_twice}
use my_coroutine.Scheduler.{ScheduleTask}
use my_coroutine.IoManager.{IoManager, fire, fire_if, minus}
use my_coroutine.IoManager.FdContexts.{
  Event, none_event, read, write, Events, has, EventContext, FdContext, event_task, trigger_event,
}
use my_coroutine.IoManager.Validity.{Valid, get_elem?-length}
use my_coroutine.IoManager.Cancel.{context_for, triggered, fired, fire_registered, dropped-Valid}

-- The context `n` is `c`, and the manager is valid once epoll watches the events of `c`.
pub record At (n : ℕ) (c : FdContext) (m : IoManager) : Type 0 where
  pub valid : Valid (record m { watched = update m.watched n c.events })
  pub here : get_elem? m.contexts n ≡ some c

watched-Valid :
    (m : IoManager) (w : ℕ → Events)
    → ((i : ℕ) → w i ≡ m.watched i)
    → Valid m
    → Valid (record m { watched = w })
watched-Valid m w same v = record {
  contexts_valid = v.contexts_valid;
  counted = v.counted;
  watches = λ i c e. cc (same i, v.watches i c e);
  small = v.small;
}

pub Valid-At :
    (n : ℕ) (c : FdContext) (m : IoManager)
    → Valid m
    → get_elem? m.contexts n ≡ some c
    → (es : Events) → At n c (record m { watched = update m.watched n es })
Valid-At n c m v here es = record {
  valid =
      watched-Valid m (update (update m.watched n es) n c.events)
        (λ i. ground (arith, v.watches n c here)) v;
  here = here;
}

-- Where tickle cannot write to the pipe no event is triggered.
pub fire_unwritten :
    (Q : FdContext × IoManager → Type 0) (n : ℕ) (event : Event) (c : FdContext) (m : IoManager)
    → Ensures Q (fire false n event c m)
unfolding fire trigger_event
fire_unwritten Q n none_event c m = tt
fire_unwritten Q n read c m = elim (Bool-cases c.events.reads) [
  | inr r ↦ rw (fire, r) tt
  | inl r ↦ elim (Option-cases c.read_ctx.scheduler) [
    | inl to ↦ rw (fire, r, to) tt
    | inr (s, to) ↦ rw (fire, r, to) tt
  ]
]
fire_unwritten Q n write c m = elim (Bool-cases c.events.writes) [
  | inr r ↦ rw (fire, r) tt
  | inl r ↦ elim (Option-cases c.write_ctx.scheduler) [
    | inl to ↦ rw (fire, r, to) tt
    | inr (s, to) ↦ rw (fire, r, to) tt
  ]
]

-- The same, where something follows
pub unwritten :
    {B : Type 0} (Q : B → Type 0) (n : ℕ) (event : Event) (c : FdContext) (m : IoManager)
    (f : FdContext × IoManager → Result B)
    → Ensures Q (fire false n event c m >>= f)
unwritten Q n event c m f =
    Ensures-bind (λ r. Ensures Q (f r)) Q (fire false n event c m) f
      (fire_unwritten (λ r. Ensures Q (f r)) n event c m) (λ r h. h)

-- Both fire_if of a handler, one of which triggers an event
pub both_unwritten :
    {B : Type 0} (Q : B → Type 0) (n : ℕ) (reads : Bool) (writes : FdContext → Bool) (c : FdContext)
    (m : IoManager) (f : FdContext × IoManager → Result B)
    → (reads || writes c) ≡ true
    → Ensures Q (do
      (read_done, after_read) ← fire_if false reads n read c m
      r ← fire_if false (writes read_done) n write read_done after_read
      f r)
unfolding fire_if
both_unwritten Q n true writes c m f h =
    unwritten Q n read c m (λ (d, m'). fire_if false (writes d) n write d m' >>= f)
both_unwritten Q n false writes c m f h = rw (fire_if, h) (unwritten Q n write c m f)

-- The context after fire_if.
abbrev pub after_if : Bool → Event → FdContext → FdContext
after_if test event c = if test then triggered event c else c

-- The tasks that were handed to schedulers, with the scheduler as a context names it.
abbrev pub addressed : List (ℕ × ScheduleTask) → List (Option ℕ × ScheduleTask)
addressed [] = []
addressed ((s, task) ∷ rest) = (some s, task) ∷ addressed rest

-- The task of an event, for the scheduler of its context, if the test holds.
abbrev pub task_if : Bool → EventContext → List (Option ℕ × ScheduleTask)
task_if test ctx = if test then (ctx.scheduler, event_task ctx) ∷ [] else []

-- The tasks of the events `es` of a context, the read event first.
abbrev pub event_tasks : Events → FdContext → List (Option ℕ × ScheduleTask)
event_tasks es c = task_if es.reads c.read_ctx ++ task_if es.writes c.write_ctx

addressed-snoc :
    (xs : List (ℕ × ScheduleTask)) (s : ℕ) (ctx : EventContext)
    → ctx.scheduler ≡ some s
    → addressed (xs ++ (s, event_task ctx) ∷ []) ≡ addressed xs ++ task_if true ctx
addressed-snoc [] s ctx to = rw to refl
addressed-snoc ((t, task) ∷ xs) s ctx to = ap (◌∷◌ (some t, task)) (addressed-snoc xs s ctx to)

record Fired (n : ℕ) (test : Bool) (event : Event) (c : FdContext) (m m' : IoManager) : Type 0 where
  at_after : At n (after_if test event c) m'
  same_watched : m'.watched ≡ m.watched
  handed_out : addressed m'.scheduled ≡ addressed m.scheduled ++ task_if test (context_for event c)

fire-At :
    (n : ℕ) (event : Event) (c : FdContext) (m : IoManager) (s : ℕ)
    → At n c m
    → has event c.events ≡ true
    → (context_for event c).scheduler ≡ some s
    → Fired n true event c m (fired s n event c m)
fire-At n event c m s at h to = record {
  at_after = record {
    valid =
        watched-Valid _ (update m.watched n (triggered event c).events)
          (λ i. sym (update_twice m.watched n c.events (triggered event c).events i))
          (dropped-Valid _ n event c (m.scheduled ++ (s, event_task (context_for event c)) ∷ [])
            at.valid at.here h);
    here = ground (
      arith,
      get_elem?-set m.contexts n n (triggered event c),
      get_elem?-length m.contexts n c at.here,
    );
  };
  same_watched = refl;
  handed_out = addressed-snoc m.scheduled s (context_for event c) to;
}

fire_if-Fired :
    (n : ℕ) (test : Bool) (event : Event) (c : FdContext) (m : IoManager)
    → At n c m
    → (test ≡ true → has event c.events ≡ true)
    → (m' : IoManager) × (fire_if true test n event c m ≡ ok (after_if test event c, m'))
      × Fired n test event c m m'
unfolding fire_if
fire_if-Fired n false event c m at h = (
  m,
  refl,
  record {
    at_after = at;
    same_watched = refl;
    handed_out = sym (append_nil (addressed m.scheduled));
  },
)
fire_if-Fired n true event c m at h =
    let (s, to, e) = fire_registered n event c m (at.valid.contexts_valid n c at.here) (h refl) in
    (fired s n event c m, e, fire-At n event c m s at (h refl) to)

pub after_read-writes :
    (test : Bool) (c : FdContext) → (after_if test read c).events.writes ≡ c.events.writes
after_read-writes true c = refl
after_read-writes false c = refl

after_both :
    (es : Events) (c : FdContext)
    → (es.reads ≡ true → c.events.reads ≡ true)
    → (es.writes ≡ true → c.events.writes ≡ true)
    → (after_if es.writes write (after_if es.reads read c)).events ≡ minus c.events es
after_both es c hr hw = ground arith

At-Valid : (n : ℕ) (c : FdContext) (m : IoManager) → At n c m → m.watched n ≡ c.events → Valid m
At-Valid n c m at e =
    watched-Valid (record m { watched = update m.watched n c.events }) m.watched
      (λ i. ground (arith, e)) at.valid

after_read-write_ctx :
    (test : Bool) (c : FdContext) → (after_if test read c).write_ctx ≡ c.write_ctx
after_read-write_ctx true c = refl
after_read-write_ctx false c = refl

joined {ℓ} :
    {A : Type ℓ} (xs ys zs t u v : List A)
    → ys ≡ xs ++ t
    → zs ≡ ys ++ u
    → u ≡ v
    → zs ≡ xs ++ (t ++ v)
joined xs ys zs t u v e₁ e₂ e₃ = rw (e₂, e₁, e₃) (append_assoc xs t v)

both_tasks :
    (es : Events) (c : FdContext) (xs ys zs : List (Option ℕ × ScheduleTask))
    → ys ≡ xs ++ task_if es.reads c.read_ctx
    → zs ≡ ys ++ task_if es.writes (after_if es.reads read c).write_ctx
    → zs ≡ xs ++ event_tasks es c
both_tasks es c xs ys zs e₁ e₂ =
    joined xs ys zs (task_if es.reads c.read_ctx)
      (task_if es.writes (after_if es.reads read c).write_ctx) (task_if es.writes c.write_ctx) e₁ e₂
      (ap (task_if es.writes) (after_read-write_ctx es.reads c))

pub no_tasks :
    (es : Events) (c : FdContext) (xs : List (Option ℕ × ScheduleTask))
    → es.reads ≡ false
    → es.writes ≡ false
    → xs ≡ xs ++ event_tasks es c
no_tasks es c xs r w = rw (r, w) (sym (append_nil xs))

-- Both fire_if of a handler, for the events `es` of the context: the manager is valid if epoll is left
-- with the rest of the events, and the tasks of `es` are handed out.
pub record Drained (n : ℕ) (es : Events) (c d : FdContext) (m m' : IoManager) : Type 0 where
  pub valid : m.watched n ≡ minus c.events es → Valid m'
  pub here : get_elem? m'.contexts n ≡ some d
  pub rest : d.events ≡ minus c.events es
  pub handed_out : addressed m'.scheduled ≡ addressed m.scheduled ++ event_tasks es c

pub both_fired :
    (n : ℕ) (es : Events) (c : FdContext) (m : IoManager)
    → At n c m
    → (es.reads ≡ true → c.events.reads ≡ true)
    → (es.writes ≡ true → c.events.writes ≡ true)
    → (m₁ m₂ : IoManager) × (d : FdContext) × (fire_if true es.reads n read c m
        ≡ ok (after_if es.reads read c, m₁))
      × (fire_if true es.writes n write (after_if es.reads read c) m₁ ≡ ok (d, m₂))
      × Drained n es c d m m₂
both_fired n es c m at hr hw =
    let (m₁, e₁, f₁) = fire_if-Fired n es.reads read c m at hr in
    let (m₂, e₂, f₂) =
      fire_if-Fired n es.writes write (after_if es.reads read c) m₁ f₁.at_after
        (λ h. cc (after_read-writes es.reads c, hw h)) in
    (
      m₁,
      m₂,
      after_if es.writes write (after_if es.reads read c),
      e₁,
      e₂,
      record {
        valid = λ w.
            At-Valid n _ m₂ f₂.at_after
              (cc (f₁.same_watched, f₂.same_watched, w, after_both es c hr hw));
        here = f₂.at_after.here;
        rest = after_both es c hr hw;
        handed_out = both_tasks es c _ _ _ f₁.handed_out f₂.handed_out;
      },
    )

-- ===== src/Motion/Timer.antt =====
-- The timer of the animations: `ViewAnimation::timer_callback` of cardboard/ViewAnimation.cpp, with
-- the two callbacks that `Seat::focus` leaves in a task.
--
-- A `float` and a `double` are their bit patterns.
use cardboard.Base.{
  ℕ, zero, suc, ◌≡◌, Bool, true, false, Option, none, some, List, [], ◌∷◌, ◌++◌, if◌then◌else◌,
  get_elem?, length, keep_if, arith, append-nil, append_assoc, sym, subst, ◌∙◌, ap, Bool-cases, inl,
  inr,
}
use cardboard.Base.Int.{ℤ, ◌-ℤ◌}
use cardboard.View.{Scene, Task, Callback, no_callback, focus_arrived, deactivate_previous, move}
use cardboard.Workspace.{Env}
use cardboard.Workspace.Edit.Output.{deactivate}
use cardboard.Seat.{Outside, and_then, store_workspace}
use cardboard.Seat.Grab.{Grabbing, with_scene}
use cardboard.Cursor.{Pointing, Layers}
use cardboard.Motion.{Doubles}
use cardboard.Motion.Switch.{arrive}

-- The processor's operations on `float`; whether a `float` is less than another and than a
-- `double`; and the milliseconds between two times.
pub record Floats : Type 0 where
  pub of_int : ℤ → ℕ
  pub of_count : ℕ → ℕ
  pub to_int : ℕ → ℤ
  pub minus : ℕ → ℕ → ℕ
  pub times : ℕ → ℕ → ℕ
  pub over : ℕ → ℕ → ℕ
  pub less : ℕ → ℕ → Bool
  pub less_than_double : ℕ → ℕ → Bool
  pub milliseconds : ℕ → ℕ → ℕ

-- What the timer reads: the clock, and the duration of an animation.
pub record Frame : Type 0 where
  pub current_time : ℕ
  pub animation_duration : ℕ

-- The bit patterns of 1.0f, 2.0f, 3.0f and 0.999.
abbrev one : ℕ
one = 0x3f800000

abbrev two : ℕ
two = 0x40000000

abbrev three : ℕ
three = 0x40400000

abbrev almost_one : ℕ
almost_one = 0x3feff7ced916872b

abbrev with_tasks : List Task → Grabbing → Grabbing
with_tasks ts g = with_scene (record g.server.scene { tasks = ts }) g

module _ (f : Floats) (r : Frame) where
  abbrev blend : ℕ → ℕ
  blend t = f.times (f.times t t) (f.minus three (f.times two t))

  -- `beziere_blend`; `std::min(1.0f, t)` is `t` exactly if it is less.
  unfoldable pub beziere_blend : ℕ → ℕ
  beziere_blend t = blend (if f.less t one then t else one)

  unfoldable pub completeness : Task → ℕ
  completeness t =
      f.over (f.of_count (f.milliseconds r.current_time t.begin)) (f.of_count r.animation_duration)

  abbrev pub is_unfinished : Task → Bool
  is_unfinished t = f.less_than_double (completeness t) almost_one

  -- Where the view of a task is between its start and its target.
  abbrev between : ℕ → ℤ → ℤ → ℤ
  between multiplier start target =
      f.to_int (f.minus (f.of_int start) (f.times multiplier (f.of_int (start -ℤ target))))

  -- The view of a task is moved on.
  unfoldable pub advance : Task → Scene → Scene
  unfolding beziere_blend completeness
  advance t s =
      let multiplier = beziere_blend (completeness t) in
      move t.view (between multiplier t.startx t.targetx) (between multiplier t.starty t.targety) s

module _ (env : Env) (out : Outside) (warped : ℤ → ℤ → Pointing) (layers : Layers) (d : Doubles)
    (f : Floats) (r : Frame) where
  -- The closures of `Seat::focus`, and an empty `std::function`, which is not called.
  abbrev pub run_callback : Callback → Grabbing → Option Grabbing
  run_callback no_callback g = some g
  run_callback (focus_arrived o i) g =
      and_then (get_elem? g.server.workspaces i) (λ ws. arrive env out warped layers d o ws.index g)
  run_callback (deactivate_previous k) g =
      and_then (get_elem? g.server.workspaces k) (λ ws.
        some (record g { server = store_workspace k g.server (deactivate ws g.server.scene) }))

  -- One round of the loop, with the task that is taken from the front.
  unfoldable pub timer_task : Task → Grabbing → Option Grabbing
  timer_task t g =
      if t.cancelled
      then some g
      else let g' = with_scene (advance f r t g.server.scene) g in
        if is_unfinished f r t
        then some (with_tasks (g'.server.scene.tasks ++ t ∷ []) g')
        else run_callback t.animation_finished_callback g'

  abbrev take_task : List Task → Grabbing → Option Grabbing
  take_task [] g = none
  take_task (t ∷ ts) g = timer_task t (with_tasks ts g)

  -- The loop over as many tasks as there are at its begin.
  unfoldable pub timer_loop : ℕ → Grabbing → Option Grabbing
  timer_loop zero g = some g
  timer_loop (suc n) g = and_then (take_task g.server.scene.tasks g) (timer_loop n)

  -- `ViewAnimation::timer_callback`
  unfoldable pub timer_callback : Grabbing → Option Grabbing
  unfolding timer_loop timer_task
  timer_callback g = timer_loop (length g.server.scene.tasks) g

  -- The tasks that go on.
  abbrev pub goes_on : Task → Bool
  goes_on t = if t.cancelled then false else is_unfinished f r t

  -- A task calls nothing back when it ends.
  abbrev pub IsQuiet : List Task → Type 0
  IsQuiet [] = Unit {0}
  IsQuiet (t ∷ ts) = (t.animation_finished_callback ≡ no_callback) × IsQuiet ts

  -- The queue is as given, and the operation has succeeded.
  abbrev pub Queues : List Task → Option Grabbing → Type 0
  Queues ts none = ⊥
  Queues ts (some g) = g.server.scene.tasks ≡ ts

  advance-tasks : (t : Task) (s : Scene) → (advance f r t s).tasks ≡ s.tasks
  unfolding advance move
  advance-tasks t s = ground arith

  timer_task-Queues :
      (t : Task) (g : Grabbing)
      → t.animation_finished_callback ≡ no_callback
      → Queues (g.server.scene.tasks ++ (if goes_on t then t ∷ [] else [])) (timer_task t g)
  unfolding timer_task advance
  timer_task-Queues t g quiet = either t.cancelled (is_unfinished f r t)
    where
      moved : Grabbing
      moved = with_scene (advance f r t g.server.scene) g

      either :
          (gone more : Bool)
          → Queues
              (g.server.scene.tasks ++ (if (if gone then false else more) then t ∷ [] else []))
              (if gone
                then some g
                else if more
                then some (with_tasks (moved.server.scene.tasks ++ t ∷ []) moved)
                else run_callback t.animation_finished_callback moved)
      either true more = sym (append-nil g.server.scene.tasks)
      either false true = ap (λ ts. ts ++ t ∷ []) (advance-tasks t g.server.scene)
      either false false =
          rw quiet (advance-tasks t g.server.scene ∙ sym (append-nil g.server.scene.tasks))

  Queues-chain :
      (ts ts' : List Task) (o : Option Grabbing) (k : Grabbing → Option Grabbing)
      → Queues ts o
      → ((g : Grabbing) → g.server.scene.tasks ≡ ts → Queues ts' (k g))
      → Queues ts' (and_then o k)
  Queues-chain ts ts' none k h n = absurd h
  Queues-chain ts ts' (some g) k h n = n g h

  kept_append :
      (t : Task) (ts done : List Task)
      → (done ++ (if goes_on t then t ∷ [] else [])) ++ keep_if goes_on ts
        ≡ done ++ keep_if goes_on (t ∷ ts)
  kept_append t ts done = elim (Bool-cases (goes_on t)) [
    | inl more ↦ rw more (append_assoc done (t ∷ []) (keep_if goes_on ts))
    | inr over ↦ rw over (ap (λ xs. xs ++ keep_if goes_on ts) (append-nil done))
  ]

  timer_loop-Queues :
      (ts done : List Task) (g : Grabbing)
      → IsQuiet ts
      → g.server.scene.tasks ≡ ts ++ done
      → Queues (done ++ keep_if goes_on ts) (timer_loop (length ts) g)
  unfolding timer_loop
  timer_loop-Queues [] done g q e = e ∙ sym (append-nil done)
  timer_loop-Queues (t ∷ ts) done g q e =
      subst (λ xs. Queues xs (and_then (take_task g.server.scene.tasks g) (timer_loop (length ts))))
        (kept_append t ts done)
        (Queues-chain rest ((done ++ kept) ++ keep_if goes_on ts) (take_task g.server.scene.tasks g)
          (timer_loop (length ts))
          (subst (λ xs. Queues rest (take_task xs g)) (sym e)
            (subst (λ xs. Queues xs (timer_task t (with_tasks (ts ++ done) g)))
              (append_assoc ts done kept) (timer_task-Queues t (with_tasks (ts ++ done) g) q.0)))
          (λ g' e'. timer_loop-Queues ts (done ++ kept) g' q.1 e'))
    where
      kept : List Task
      kept = if goes_on t then t ∷ [] else []

      rest : List Task
      rest = ts ++ (done ++ kept)

  -- If no task has a callback, the timer succeeds, and the queue is then that of the tasks that are
  -- neither cancelled nor at their end, in their order.
  pub timer_callback-Queues :
      (g : Grabbing)
      → IsQuiet g.server.scene.tasks
      → Queues (keep_if goes_on g.server.scene.tasks) (timer_callback g)
  unfolding timer_callback
  timer_callback-Queues g q =
      timer_loop-Queues g.server.scene.tasks [] g q (sym (append-nil g.server.scene.tasks))

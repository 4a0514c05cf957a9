-- ===== src/Tower/Worker/Shutdown.antt =====
-- The end of the layer stops its worker, a sleeping one too.
use firq.Prelude.{ℕ, ◌≡◌, refl, arith, Bool, true, List, [], ◌∷◌}
use firq.Semaphore.{Semaphore}
use firq.State.Signal.{changed}
use firq.Scheduler.Core.{Scheduler}
use firq.Tower.Worker.{
  WorkerPhase, testing, dequeuing, sleeping, stopped, acquiring, WorkerEvent, tested, searched,
  woken, polled_permit, LayerWorker, new, wake, hand_over, advance, run,
}
use firq.Tower.Worker.Watched.{IsCalm, IsWatched, new-IsWatched, run-IsWatched, search-stopped}

module _ {sem : Semaphore} {T : Type 0} where
  own_steps :
      (call_there : Bool) (phase : WorkerPhase T) (w : LayerWorker sem T)
      → w.phase ≡ phase
      → w.shutdown ≡ true
      → IsWatched w
      → let end = run (woken ∷ tested ∷ searched ∷ polled_permit call_there ∷ []) w in
        (end.phase ≡ stopped) × (end.running ≡ w.running)
  unfolding run advance hand_over wake
  own_steps call_there testing w h f c = rw (h, f) (refl, refl)
  own_steps call_there dequeuing w h f c =
      let i = (c.dropped f).1 in
      let w' : LayerWorker sem T = record w { phase = dequeuing } in
      let e = search-stopped w' i in rw (h, e.0) (refl, e.1)
  own_steps call_there (sleeping observed) w h f c =
      let i = (c.dropped f).1 in
      let late = (c.seen observed h).1 i in
      let told : changed w.scheduler.work_signal observed ≡ true =
        unfold changed in ground (arith, late) in
      let w' : LayerWorker sem T = record w { phase = dequeuing } in
      let e = search-stopped w' i in rw (h, told, e.0) (refl, e.1)
  own_steps call_there (acquiring task) w h f c = rw (h, (c.dropped f).0) (refl, refl)
  own_steps call_there stopped w h f c = rw h (refl, refl)

module _ (sem : Semaphore) {T : Type 0} where
  -- In every run of a layer in which the number of the work signal does not wrap, and every
  -- action of another thread keeps a closed scheduler closed and changes that number when it
  -- closes one: once the layer has been dropped, the worker's thread ends by its own next steps
  -- wherever it stands, also asleep on the work signal or waiting for a permit, and it hands no
  -- permit to a call on the way.
  pub run-stopped :
      (s : Scheduler T) (limit : ℕ) (es : List (WorkerEvent T)) (call_there : Bool)
      → IsCalm es (new {sem = sem} s limit)
      → let w = run es (new {sem = sem} s limit) in
        w.shutdown ≡ true
        → let end = run (woken ∷ tested ∷ searched ∷ polled_permit call_there ∷ []) w in
          (end.phase ≡ stopped) × (end.running ≡ w.running)
  run-stopped s limit es call_there calm gone =
      let w = run es (new {sem = sem} s limit) in
      own_steps call_there w.phase w refl gone
        (run-IsWatched es (new {sem = sem} s limit) calm (new-IsWatched s limit))

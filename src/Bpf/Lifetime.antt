-- ===== src/Bpf/Lifetime.antt =====
-- democracy-scheduler/src/bpf.rs: the end of a `BpfScheduler`: `shutdown_and_report` and `drop`.
use managed_linux_democracy.Prelude.{
  ℕ, ◌≡◌, refl, ap, ◌∙◌, arith, Bool, false, List, [], ◌∷◌, ◌++◌, Option, none, some,
}
use mathlib.Core.List.{append-nil}
use managed_linux_democracy.Bpf.Task.{DispatchedTask}
use managed_linux_democracy.Bpf.Libbpf.{Libbpf}
use managed_linux_democracy.Bpf.Connection.{
  BpfScheduler, update_tasks, dequeue_task, dispatch_task, take_struct_ops,
}

-- What the macros `uei_exited!` and `uei_report!` of the crate scx_utils read off the kernel's part.
pub record ExitInfo (l : Libbpf) : Type 1 where
  pub Report : Type 0
  pub uei_exited : BpfScheduler l → Bool
  pub uei_report : BpfScheduler l → Report

-- A scheduler with the links that were released, in their order, and whether the process has its
-- memory locked; `init` locks it.
pub record Owned (l : Libbpf) : Type 0 where
  pub scheduler : BpfScheduler l
  pub released : List l.Link
  pub memory_locked : Bool

module _ (l : Libbpf) where
  abbrev pub held : Option l.Link → List l.Link
  held none = []
  held (some link) = link ∷ []

  -- A link that is dropped is released; there may be none to drop.
  abbrev pub release : BpfScheduler l × Option l.Link → Owned l → Owned l
  release (s, taken) x = record x { scheduler = s; released = x.released ++ held taken }

  unfoldable pub drop : Owned l → Owned l
  drop x = record (release (take_struct_ops l x.scheduler) x) { memory_locked = false }

  module _ (info : ExitInfo l) where
    unfoldable pub exited : Owned l → Bool
    exited x = info.uei_exited x.scheduler

    unfoldable pub shutdown_and_report : Owned l → Owned l × info.Report
    shutdown_and_report x =
        let x' = release (take_struct_ops l x.scheduler) x in (x', info.uei_report x'.scheduler)

    -- The calls that a user may make before the value is dropped.
    pub data Call : Type 0 where
      dequeue : Call
      dispatch : DispatchedTask → Call
      update : Option ℕ → Option ℕ → Call
      shutdown : Call

    unfoldable pub call : Call → Owned l → Owned l
    unfolding shutdown_and_report
    call dequeue x = record x { scheduler = (dequeue_task l x.scheduler).0 }
    call (dispatch t) x = record x { scheduler = (dispatch_task l t x.scheduler).0 }
    call (update q n) x = record x { scheduler = update_tasks l q n x.scheduler }
    call shutdown x = (shutdown_and_report x).0

    unfoldable pub call_all : List Call → Owned l → Owned l
    unfolding call
    call_all [] x = x
    call_all (c ∷ cs) x = call_all cs (call c x)

    dequeue_task-struct_ops : (s : BpfScheduler l) → (dequeue_task l s).0.struct_ops ≡ s.struct_ops
    unfolding dequeue_task
    dequeue_task-struct_ops s = ground arith

    dispatch_task-struct_ops :
        (t : DispatchedTask) (s : BpfScheduler l)
        → (dispatch_task l t s).0.struct_ops ≡ s.struct_ops
    unfolding dispatch_task
    dispatch_task-struct_ops t s = ground arith

    -- What was released, and then what is still held.
    abbrev links : Owned l → List l.Link
    links x = x.released ++ held x.scheduler.struct_ops

    links-call : (c : Call) (x : Owned l) → links (call c x) ≡ links x
    unfolding call update_tasks take_struct_ops
    links-call dequeue x = ap (λ o. x.released ++ held o) (dequeue_task-struct_ops x.scheduler)
    links-call (dispatch t) x =
        ap (λ o. x.released ++ held o) (dispatch_task-struct_ops t x.scheduler)
    links-call (update q n) x = refl
    links-call shutdown x = append-nil (x.released ++ held x.scheduler.struct_ops)

    links-call_all : (cs : List Call) (x : Owned l) → links (call_all cs x) ≡ links x
    unfolding call_all
    links-call_all [] x = refl
    links-call_all (c ∷ cs) x = links-call_all cs (call c x) ∙ links-call c x

    -- Whatever calls come before it, `shutdown_and_report` among them and more than once, after `drop`
    -- the link that the scheduler held has been released exactly once, nothing is held any more, and
    -- the memory is unlocked.
    pub drop-released :
        (cs : List Call) (x : Owned l) (link : l.Link)
        → x.scheduler.struct_ops ≡ some link
        → ((drop (call_all cs x)).released ≡ x.released ++ link ∷ [])
          × ((drop (call_all cs x)).scheduler.struct_ops ≡ none)
          × ((drop (call_all cs x)).memory_locked ≡ false)
    unfolding drop take_struct_ops
    drop-released cs x link h = (links-call_all cs x ∙ ap (λ o. x.released ++ held o) h, refl, refl)

-- ===== src/Bpf/Dispatch.antt =====
-- democracy-scheduler/src/bpf.rs: `dispatch_task` and `update_tasks` as their user sees them.
use managed_linux_democracy.Prelude.{
  ℕ, ◌≡◌, refl, ap, ◌∙◌, ◌⊎◌, inl, inr, [], ◌∷◌, ◌++◌, map, Option, some, Result, ok, err, returned,
}
use mathlib.Core.List.{map-append}
use managed_linux_democracy.Bpf.Task.{DispatchedTask}
use managed_linux_democracy.Bpf.Libbpf.{Libbpf, dispatched_size}
use managed_linux_democracy.Bpf.Connection.{BpfScheduler, fill, update_tasks, dispatch_task}
use managed_linux_democracy.Bpf.Views.{as_dispatched, sent, told}

module _ (l : Libbpf) where
  abbrev Dispatches : DispatchedTask → BpfScheduler l → Type 0
  Dispatches t s =
      ((s' : BpfScheduler l) × (dispatch_task l t s ≡ (s', returned (ok tt)))
        × (sent l s' ≡ sent l s ++ t ∷ [])
        × (told l s' ≡ told l s))
      ⊎ ((s' : BpfScheduler l) × (e : l.Error) × (dispatch_task l t s ≡ (s', returned (err e)))
          × (sent l s' ≡ sent l s)
          × (told l s' ≡ told l s))

  dispatch_reserved :
      (t : DispatchedTask) (s : BpfScheduler l) (x : l.Sample) (r : l.UserRing)
      → l.reserve dispatched_size s.dispatched ≡ ok (x, r)
      → Dispatches t s
  unfolding dispatch_task
  dispatch_reserved t s x r e =
      let (kept, (c, fits)) = l.reserve_fits s.dispatched r x e in
      let (r', submitted, added) = l.submit_sends s.dispatched r x (fill t c) e in
      inl (
        record s { dispatched = r' },
        rw (e, dispatch_task) (rw (fits, dispatch_task) (rw (submitted, dispatch_task))),
        ap (map as_dispatched) added
            ∙ ap (λ q. map as_dispatched (q ++ fill t c ∷ [])) kept
            ∙ map-append as_dispatched (l.sent s.dispatched) (fill t c ∷ []),
        refl,
      )

  dispatch_refused :
      (t : DispatchedTask) (s : BpfScheduler l) (e : l.Error)
      → l.reserve dispatched_size s.dispatched ≡ err e
      → Dispatches t s
  unfolding dispatch_task
  dispatch_refused t s e h = inr (s, e, rw (h, dispatch_task), refl, refl)

  -- Every dispatch returns. It adds its task at the end of what was sent, with all its fields, or it
  -- fails, and then nothing is sent; the counts that the kernel's part was told stay as they are.
  pub dispatch :
      (t : DispatchedTask) (s : BpfScheduler l)
      → ((s' : BpfScheduler l) × (dispatch_task l t s ≡ (s', returned (ok tt)))
          × (sent l s' ≡ sent l s ++ t ∷ [])
          × (told l s' ≡ told l s))
        ⊎ ((s' : BpfScheduler l) × (e : l.Error) × (dispatch_task l t s ≡ (s', returned (err e)))
            × (sent l s' ≡ sent l s)
            × (told l s' ≡ told l s))
  dispatch t s = go (l.reserve dispatched_size s.dispatched) refl
    where
      go :
          (o : Result (l.Sample × l.UserRing) l.Error)
          → l.reserve dispatched_size s.dispatched ≡ o
          → Dispatches t s
      go (ok (x, r)) e = dispatch_reserved t s x r e
      go (err e) h = dispatch_refused t s e h

  pub sent-update_tasks :
      (q n : Option ℕ) (s : BpfScheduler l) → sent l (update_tasks l q n s) ≡ sent l s
  unfolding update_tasks
  sent-update_tasks q n s = refl

  pub told-update_tasks :
      (q n : ℕ) (s : BpfScheduler l) → told l (update_tasks l (some q) (some n) s) ≡ (q, n)
  unfolding update_tasks
  told-update_tasks q n s = refl

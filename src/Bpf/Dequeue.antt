-- ===== src/Bpf/Dequeue.antt =====
-- democracy-scheduler/src/bpf.rs: `dequeue_task` takes the tasks out of the ring in its order.
use managed_linux_democracy.Prelude.{
  ℕ, ◌≡◌, ◌≢◌, refl, ◌∙◌, subst, arith, ℤ, negsuc, length, All, List, [], ◌∷◌, map, none, some, ok,
  err, returned, Result, Option,
}
use managed_linux_democracy.Bpf.Task.{QueuedTask}
use managed_linux_democracy.Bpf.Message.{Bytes, from_bytes, to_queued_task}
use managed_linux_democracy.Bpf.Libbpf.{Libbpf, Event, sample, fault, IsExpected, queued_size}
use managed_linux_democracy.Bpf.Connection.{
  BpfScheduler, callback, libbpf_stop, received_task, dequeue_task,
}
use managed_linux_democracy.Scheduler.Connector.{Arrival, task, failure}
use managed_linux_democracy.Bpf.Views.{as_arrival, queue, sent}

callback_copies : (d buf : Bytes) → length d ≡ queued_size → callback d buf ≡ some (libbpf_stop, d)
unfolding callback
callback_copies d buf h = ground arith

module _ (l : Libbpf) where
  events-IsExpected : (r : l.Ring) (es : List Event) → l.events r ≡ es → All IsExpected es
  events-IsExpected r es e = subst (All IsExpected) e (l.expected r)

  dequeue_task_of :
      (s : BpfScheduler l) {res : ℤ} {buf : Bytes} {queued : l.Ring}
      → l.consume_raw callback s.queued s.buf ≡ some (res, buf, queued)
      → dequeue_task l s ≡ (record s { queued = queued; buf = buf }, received_task res buf)
  unfolding dequeue_task
  dequeue_task_of s e = rw (e, dequeue_task)

  received_stop :
      (d : Bytes)
      → received_task libbpf_stop d ≡ returned (ok (some (to_queued_task (from_bytes d))))
  unfolding received_task
  received_stop d = refl

  received_fault :
      (n : ℕ) (d : Bytes) → n ≢ 254 → received_task (negsuc n) d ≡ returned (err (negsuc n))
  unfolding received_task
  received_fault n d h = ground arith

  dequeue_sample :
      (s : BpfScheduler l) (d : Bytes) (es : List Event)
      → l.events s.queued ≡ sample d ∷ es
      → (s' : BpfScheduler l) × (dequeue_task l s
          ≡ (s', returned (ok (some (to_queued_task (from_bytes d))))))
        × (l.events s'.queued ≡ es)
        × (l.sent s'.dispatched ≡ l.sent s.dispatched)
  dequeue_sample s d es e =
      let (r, consumed, rest) =
        l.consume_sample callback s.queued s.buf d es 254 d e
          (callback_copies d s.buf (events-IsExpected s.queued (sample d ∷ es) e).0) in
      (
        record s { queued = r; buf = d },
        dequeue_task_of s consumed ∙ rw (received_stop d),
        rest,
        refl,
      )

  dequeue_fault :
      (s : BpfScheduler l) (n : ℕ) (es : List Event)
      → l.events s.queued ≡ fault n ∷ es
      → (s' : BpfScheduler l) × (dequeue_task l s ≡ (s', returned (err (negsuc n))))
        × (l.events s'.queued ≡ es)
        × (l.sent s'.dispatched ≡ l.sent s.dispatched)
  dequeue_fault s n es e =
      let (r, consumed, rest) = l.consume_fault callback s.queued s.buf n es e in
      (
        record s { queued = r },
        dequeue_task_of s consumed
            ∙ rw (received_fault n s.buf (events-IsExpected s.queued (fault n ∷ es) e).0),
        rest,
        refl,
      )

  dequeue_end :
      (s : BpfScheduler l)
      → l.events s.queued ≡ []
      → (s' : BpfScheduler l) × (dequeue_task l s ≡ (s', returned (ok none)))
        × (l.sent s'.dispatched ≡ l.sent s.dispatched)
  unfolding received_task
  dequeue_end s e =
      let (r, consumed) = l.consume_empty callback s.queued s.buf e in
      (record s { queued = r }, dequeue_task_of s consumed, refl)

  -- The arrivals of a non-empty queue begin with what the first event is read as.
  split_queue :
      (es : List Event) (a : Arrival) (rest : List Arrival)
      → map as_arrival es ≡ a ∷ rest
      → (x : Event) × (xs : List Event) × (es ≡ x ∷ xs)
        × (as_arrival x ≡ a)
        × (map as_arrival xs ≡ rest)
  split_queue [] a rest e = cc
  split_queue (x ∷ xs) a rest e = (x, xs, refl, cc, cc)

  -- If the next event of the ring is a task's message, the call returns that task, leaves the rest of
  -- the queue as it was, and sends nothing.
  pub dequeue-task :
      (s : BpfScheduler l) (t : QueuedTask) (rest : List Arrival)
      → queue l s ≡ task t ∷ rest
      → (s' : BpfScheduler l) × (dequeue_task l s ≡ (s', returned (ok (some t))))
        × (queue l s' ≡ rest)
        × (sent l s' ≡ sent l s)
  dequeue-task s t rest e = go (split_queue (l.events s.queued) (task t) rest e)
    where
      go :
          (x : Event) × (xs : List Event) × (l.events s.queued ≡ x ∷ xs)
            × (as_arrival x ≡ task t)
            × (map as_arrival xs ≡ rest)
          → (s' : BpfScheduler l) × (dequeue_task l s ≡ (s', returned (ok (some t))))
            × (queue l s' ≡ rest)
            × (sent l s' ≡ sent l s)
      go (sample d, xs, first, same, left) =
          let (s', done, after, kept) = dequeue_sample s d xs first in
          let same_task : to_queued_task (from_bytes d) ≡ t = cc in
          (s', done ∙ rw same_task, rw after left, rw kept)
      go (fault n, xs, first, same, left) = cc

  -- If it is a failure, the call returns its code, and likewise leaves the rest.
  pub dequeue-failure :
      (s : BpfScheduler l) (c : ℤ) (rest : List Arrival)
      → queue l s ≡ failure c ∷ rest
      → (s' : BpfScheduler l) × (dequeue_task l s ≡ (s', returned (err c)))
        × (queue l s' ≡ rest)
        × (sent l s' ≡ sent l s)
  dequeue-failure s c rest e = go (split_queue (l.events s.queued) (failure c) rest e)
    where
      go :
          (x : Event) × (xs : List Event) × (l.events s.queued ≡ x ∷ xs)
            × (as_arrival x ≡ failure c)
            × (map as_arrival xs ≡ rest)
          → (s' : BpfScheduler l) × (dequeue_task l s ≡ (s', returned (err c)))
            × (queue l s' ≡ rest)
            × (sent l s' ≡ sent l s)
      go (sample d, xs, first, same, left) = cc
      go (fault n, xs, first, same, left) =
          let (s', done, after, kept) = dequeue_fault s n xs first in
          let same_code : negsuc n ≡ c = cc in (s', done ∙ rw same_code, rw after left, rw kept)

  no_events : (es : List Event) → map as_arrival es ≡ [] → es ≡ []
  no_events [] e = refl
  no_events (x ∷ xs) e = cc

  -- If there is none, the call returns no task, and sends nothing.
  pub dequeue-end :
      (s : BpfScheduler l)
      → queue l s ≡ []
      → (s' : BpfScheduler l) × (dequeue_task l s ≡ (s', returned (ok none)))
        × (sent l s' ≡ sent l s)
  dequeue-end s e =
      let (s', done, kept) = dequeue_end s (no_events (l.events s.queued) e) in (s', done, rw kept)

  -- What a call of `dequeue_task` answers to the next arrival.
  abbrev pub answer : Arrival → Result (Option QueuedTask) ℤ
  answer (task t) = ok (some t)
  answer (failure c) = err c

  -- A call on the given queue has returned, with the first arrival and the others left, or with no
  -- task if there is none, and has sent nothing.
  abbrev pub Takes : BpfScheduler l → List Arrival → Type 0
  Takes s [] =
      (s' : BpfScheduler l) × (dequeue_task l s ≡ (s', returned (ok none))) × (sent l s' ≡ sent l s)
  Takes s (a ∷ rest) =
      (s' : BpfScheduler l) × (dequeue_task l s ≡ (s', returned (answer a)))
      × (queue l s' ≡ rest)
      × (sent l s' ≡ sent l s)

  -- Every `dequeue_task` returns, never panics, and sends nothing: with the task of the first message
  -- in the ring, or the code of the failure that is first, and the rest of the queue as it was; or
  -- with no task, from an empty ring.
  pub dequeue_task-Takes : (s : BpfScheduler l) → Takes s (queue l s)
  dequeue_task-Takes s = go (queue l s) refl
    where
      go : (arrivals : List Arrival) → queue l s ≡ arrivals → Takes s arrivals
      go [] e = dequeue-end s e
      go (task t ∷ rest) e = dequeue-task s t rest e
      go (failure c ∷ rest) e = dequeue-failure s c rest e

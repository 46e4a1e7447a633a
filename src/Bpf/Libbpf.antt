-- ===== src/Bpf/Libbpf.antt =====
-- What democracy-scheduler/src/bpf.rs asks of the libraries `libbpf_rs` and `plain`, and what it
-- relies on. The libraries are not part of the repository, so they are a parameter.
use managed_linux_democracy.Prelude.{
  ℕ, ◌≡◌, ◌≢◌, ℤ, pos, negsuc, List, [], ◌∷◌, ◌++◌, length, All, Option, some, Result, ok,
}
use managed_linux_democracy.Bpf.Message.{Bytes}

-- `struct dispatched_task_ctx` of democracy-scheduler/intf.h
pub record DispatchedTaskCtx : Type 0 where
  pub pid : ℤ
  pub cpu : ℤ
  pub flags : ℕ
  pub cpumask_cnt : ℕ
  pub slice_ns : ℕ

-- Its size, and that of `queued_task_ctx`.
abbrev pub dispatched_size : ℕ
dispatched_size = 32

abbrev pub queued_size : ℕ
queued_size = 40

-- What the ring buffer has for one call of `consume_raw`: a sample, or the failure of the call with
-- the code -(n + 1).
pub data Event : Type 0 where
  sample : Bytes → Event
  fault : ℕ → Event

-- The kernel's part submits nothing but `queued_task_ctx` to the ring, and no failure has the code
-- -255, which is no errno of the kernel's.
abbrev pub IsExpected : Event → Type 0
IsExpected (sample d) = length d ≡ queued_size
IsExpected (fault n) = n ≢ 254

pub record Libbpf : Type 1 where
  pub Ring : Type 0
  pub UserRing : Type 0
  pub Sample : Type 0
  pub Link : Type 0
  pub Error : Type 0
  -- `RingBuffer::consume_raw`, with the callback as it acts on the static buffer: it returns a code
  -- and the buffer's new contents, or panics (`none`).
  pub consume_raw : (Bytes → Bytes → Option (ℤ × Bytes)) → Ring → Bytes → Option (ℤ × Bytes × Ring)
  -- `UserRingBuffer::reserve` and `submit`; `none` is a failure of `submit`.
  pub reserve : ℕ → UserRing → Result (Sample × UserRing) Error
  pub submit : Sample → UserRing → Option UserRing
  -- `plain::from_mut_bytes`: the structure in the sample's bytes, if they have its size and
  -- alignment; and a write through the reference that it gives.
  pub from_mut_bytes : Sample → Option DispatchedTaskCtx
  pub store : DispatchedTaskCtx → Sample → Sample
  -- What the ring gives to one call after another until a call finds it empty, and what has been
  -- submitted to the user ring.
  pub events : Ring → List Event
  pub sent : UserRing → List DispatchedTaskCtx
  pub expected : (r : Ring) → All IsExpected (events r)
  -- An empty ring: no record was consumed. Anything may have arrived afterwards.
  pub consume_empty :
      (cb : Bytes → Bytes → Option (ℤ × Bytes)) (r : Ring) (buf : Bytes)
      → events r ≡ []
      → (r' : Ring) × (consume_raw cb r buf ≡ some (pos 0, buf, r'))
  -- A callback that returns a negative code stops the call, with that code, after its one sample.
  pub consume_sample :
      (cb : Bytes → Bytes → Option (ℤ × Bytes)) (r : Ring) (buf : Bytes) (d : Bytes)
      (es : List Event) (n : ℕ) (buf' : Bytes)
      → events r ≡ sample d ∷ es
      → cb d buf ≡ some (negsuc n, buf')
      → (r' : Ring) × (consume_raw cb r buf ≡ some (negsuc n, buf', r')) × (events r' ≡ es)
  pub consume_fault :
      (cb : Bytes → Bytes → Option (ℤ × Bytes)) (r : Ring) (buf : Bytes) (n : ℕ) (es : List Event)
      → events r ≡ fault n ∷ es
      → (r' : Ring) × (consume_raw cb r buf ≡ some (negsuc n, buf, r')) × (events r' ≡ es)
  -- A reserved sample has the size that was asked for and the ring's alignment of 8 bytes.
  pub reserve_fits :
      (r r' : UserRing) (x : Sample)
      → reserve dispatched_size r ≡ ok (x, r')
      → (sent r' ≡ sent r) × ((c : DispatchedTaskCtx) × (from_mut_bytes x ≡ some c))
  -- A sample that was reserved is submitted with what was stored in it.
  pub submit_sends :
      (r r' : UserRing) (x : Sample) (c : DispatchedTaskCtx)
      → reserve dispatched_size r ≡ ok (x, r')
      → (r'' : UserRing) × (submit (store c x) r' ≡ some r'') × (sent r'' ≡ sent r' ++ c ∷ [])

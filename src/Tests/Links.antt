-- ===== src/Tests/Links.antt =====
-- The connection to the kernel, the two programs together, and thingdoer, at concrete inputs.
use Prim.Native.String.{String}
use mathlib.Core.List.{Mem, mem-cons_self}
use managed_linux_democracy.Prelude.{
  ℕ, ◌≡◌, ◌≢◌, refl, subst, arith, ◌⊎◌, false, nat_eq, pos, negsuc, List, [], ◌∷◌, ◌++◌, Option,
  none, some, ok, err, returned, panicked, ltb, if◌then◌else◌,
}
use managed_linux_democracy.Prelude.Text.{Text, codes}
use managed_linux_democracy.Bpf.Message.Inverse.{from_bytes-IsInRange}
use managed_linux_democracy.Bpf.Message.{
  Bytes, IsInRange, from_bytes, to_queued_task, to_bytes, to_queued_task-from_bytes,
}
use managed_linux_democracy.Bpf.Connection.{BpfScheduler, dispatch_task}
use managed_linux_democracy.Bpf.Lifetime.{ExitInfo, Call}
use managed_linux_democracy.Bpf.Views.{queue, sent, told}
use managed_linux_democracy.Bpf.Dequeue.{Takes, dequeue_task-Takes}
use managed_linux_democracy.Bpf.Dispatch.{dispatch}
use managed_linux_democracy.Scheduler.Choice.{turn}
use managed_linux_democracy.Ballot.State.{VotesResponse}
use managed_linux_democracy.Election.{Json, narrow, as_response}
use managed_linux_democracy.Thingdoer.Loop.{sched_ext, Outside, second_arg, main}
use managed_linux_democracy.Thingdoer.Lines.{Chats, main-Chats}
use managed_linux_democracy.Tests.Kernel.{task_of-IsInRange, lists, task_of, busy}

-- A body that is the response itself.
abbrev pub plain : Json
plain = record {
  Body = VotesResponse;
  encode = λ v. v;
  decode = λ v. as_response (narrow v.votes);
  decode-encode = λ v. refl;
}

to_queued_task-from_bytes_example :
    to_queued_task (from_bytes (to_bytes (task_of 10) ++ 1 ∷ [])) ≡ task_of 10
to_queued_task-from_bytes_example =
    to_queued_task-from_bytes (task_of 10) (1 ∷ []) (task_of-IsInRange 10 (omega arith))

-- The pid is -1, and the last number uses its highest bit.
abbrev raw : Bytes
raw =
    255 ∷ 255 ∷ 255 ∷ 255 ∷ 3 ∷ 0 ∷ 0 ∷ 0 ∷ 1 ∷ 0 ∷ 0 ∷ 0 ∷ 0 ∷ 0 ∷ 0 ∷ 0 ∷ 0 ∷ 202 ∷ 154 ∷ 59 ∷ 0
    ∷ 0 ∷ 0 ∷ 0 ∷ 9 ∷ 0 ∷ 0 ∷ 0 ∷ 0 ∷ 0 ∷ 0 ∷ 0 ∷ 100 ∷ 0 ∷ 0 ∷ 0 ∷ 0 ∷ 0 ∷ 0 ∷ 255 ∷ []

from_bytes-IsInRange_example :
    IsInRange (to_queued_task (from_bytes raw)) × (to_bytes (to_queued_task (from_bytes raw)) ≡ raw)
from_bytes-IsInRange_example = from_bytes-IsInRange raw refl (omega arith)

dequeue_task-Takes_example : Takes lists busy (queue lists busy)
dequeue_task-Takes_example = dequeue_task-Takes lists busy

dispatch_example :
    ((s' : BpfScheduler lists) × (dispatch_task lists (turn (task_of 20)) busy
        ≡ (s', returned (ok tt)))
      × (sent lists s' ≡ sent lists busy ++ turn (task_of 20) ∷ [])
      × (told lists s' ≡ told lists busy))
    ⊎ ((s' : BpfScheduler lists) × (e : ℕ) × (dispatch_task lists (turn (task_of 20)) busy
          ≡ (s', returned (err e)))
        × (sent lists s' ≡ sent lists busy)
        × (told lists s' ≡ told lists busy))
dispatch_example = dispatch lists (turn (task_of 20)) busy

abbrev first_word : List String → Option String
first_word [] = none
first_word (w ∷ ws) = some w

first_word-Mem : (ws : List String) (w : String) → first_word ws ≡ some w → Mem w ws
first_word-Mem [] w h = absurd (ground arith)
first_word-Mem (x ∷ ws) w h =
    let same : x ≡ w = ground arith in subst (λ v. Mem v (x ∷ ws)) same mem-cons_self

first_word-cons : (i : ℕ) (w : String) (ws : List String) → first_word (w ∷ ws) ≢ none
first_word-cons i w ws h = cc

-- The third `sched_yield` fails.
abbrev quiet : Outside
quiet = record {
  args = codes "thingdoer" ∷ codes "summer1" ∷ [];
  pid = pos 77;
  sched_setscheduler = λ pid policy priority. pos 0;
  sched_yield = λ i. if ltb 1 i then negsuc 0 else pos 0;
  choose = λ i ws. first_word ws;
  yellow = λ s. s;
  choose_some = first_word-cons;
  choose_mem = λ i. first_word-Mem;
}

main-Chats_example :
    (((second_arg quiet quiet.args ≡ none)
        ⊎ (quiet.sched_setscheduler quiet.pid sched_ext (pos 0) ≢ pos 0))
      × (main quiet 5 ≡ ([], panicked)))
    ⊎ ((name : Text) × (second_arg quiet quiet.args ≡ some name)
        × (quiet.sched_setscheduler quiet.pid sched_ext (pos 0) ≡ pos 0)
        × Chats quiet name 0 5 (main quiet 5))
main-Chats_example = main-Chats quiet 5

abbrev pub silent : ExitInfo lists
silent = record { Report = Unit; uei_exited = λ s. false; uei_report = λ s. tt }

abbrev pub shut_twice : List (Call lists silent)
shut_twice = Call.dequeue ∷ Call.shutdown ∷ Call.update (some 1) none ∷ Call.shutdown ∷ []

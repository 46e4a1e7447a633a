-- ===== src/Bpf/Implements.antt =====
-- democracy-scheduler/src/bpf.rs provides what democracy-scheduler/src/main.rs relies on.
use managed_linux_democracy.Bpf.Libbpf.{Libbpf}
use managed_linux_democracy.Bpf.Connection.{BpfScheduler, update_tasks, dequeue_task, dispatch_task}
use managed_linux_democracy.Bpf.Views.{queue, sent, told}
use managed_linux_democracy.Bpf.Dequeue.{dequeue-task, dequeue-failure, dequeue-end}
use managed_linux_democracy.Bpf.Dispatch.{dispatch, sent-update_tasks, told-update_tasks}
use managed_linux_democracy.Scheduler.Connector.{Connector}

abbrev pub bpf_connector : Libbpf → Connector
bpf_connector l = record {
  State = BpfScheduler l;
  Error = l.Error;
  dequeue_task = dequeue_task l;
  dispatch_task = dispatch_task l;
  update_tasks = update_tasks l;
  queue = queue l;
  sent = sent l;
  told = told l;
  dequeue-task = dequeue-task l;
  dequeue-failure = dequeue-failure l;
  dequeue-end = dequeue-end l;
  sent-update_tasks = sent-update_tasks l;
  told-update_tasks = told-update_tasks l;
  dispatch = dispatch l;
}

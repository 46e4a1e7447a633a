-- ===== src/Ballot/Server/Tasks/Readers.antt =====
-- ballot_box/src/main.rs: HTTP requests that only read, however their tasks interleave.
use managed_linux_democracy.Prelude.{◌≢◌, ◌⊎◌, Profile}
use managed_linux_democracy.Prelude.Text.{codes, text_eq}
use managed_linux_democracy.Ballot.Routes.{post_method}
use managed_linux_democracy.Ballot.Server.{HttpRequest, Surroundings}
use managed_linux_democracy.Ballot.Server.Tasks.{waiting, casting, asking, done, ServerTask}

module _ (o : Surroundings) (p : Profile) where
  -- No vote is posted.
  abbrev pub IsRead : HttpRequest o.Body → Type 0
  IsRead r = (r.method ≢ post_method) ⊎ (r.path ≢ codes "/api/votes")

  -- The task has not come to a vote.
  abbrev IsReader : ServerTask o p → Type 0
  IsReader (waiting r) = IsRead r
  IsReader (casting q pc) = ⊥
  IsReader (asking q) = Unit
  IsReader (done x) = Unit

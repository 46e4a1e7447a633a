-- ===== src/Scheduler/Logger.antt =====
-- democracy-scheduler/src/main.rs: `init_logger`.
use Prim.Native.String.{String}
use managed_linux_democracy.Prelude.{refl, arith, List, [], ◌∷◌, All, true, Result, Outcome}
use managed_linux_democracy.Prelude.Text.{Text, codes}
use managed_linux_democracy.Logging.{IsOff, Tracing, set_up}

abbrev pub directives : List Text
directives =
    codes "sqlx=off"
    ∷ codes "h2=off"
    ∷ codes "hyper=off"
    ∷ codes "rustls=off"
    ∷ codes "bollard=off"
    ∷ codes "reqwest=off"
    ∷ codes "tungstenite=off"
    ∷ codes "scx_utils=off"
    ∷ []

pub directives-IsOff : All IsOff directives
directives-IsOff = (
  (codes "sqlx", refl, (λ e. cc), omega arith),
  (
    (codes "h2", refl, (λ e. cc), omega arith),
    (
      (codes "hyper", refl, (λ e. cc), omega arith),
      (
        (codes "rustls", refl, (λ e. cc), omega arith),
        (
          (codes "bollard", refl, (λ e. cc), omega arith),
          (
            (codes "reqwest", refl, (λ e. cc), omega arith),
            (
              (codes "tungstenite", refl, (λ e. cc), omega arith),
              ((codes "scx_utils", refl, (λ e. cc), omega arith), tt),
            ),
          ),
        ),
      ),
    ),
  ),
)

unfoldable pub init_logger :
    (t : Tracing) → t.Global → t.Global × Outcome (Result (Unit {0}) String)
init_logger t = set_up t directives true

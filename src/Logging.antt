-- ===== src/Logging.antt =====
-- What `init_logger` of ballot_box/src/main.rs and of democracy-scheduler/src/main.rs asks of the crate
-- tracing_subscriber, and the steps that the two have in common. The crate is not part of the
-- repository, so it is a parameter.
use Prim.Native.String.{String}
use managed_linux_democracy.Prelude.{
  ℕ, ◌≤◌, ◌≡◌, ◌≢◌, ◌⊎◌, refl, List, [], ◌∷◌, ◌++◌, All, Bool, true, Option, Option-cases, none,
  some, Result, ok, Outcome, returned, panicked, inl, inr,
}
use managed_linux_democracy.Prelude.Text.{Text, codes}

-- What the chain of `fmt()` sets up to its `init`.
pub record Settings (EnvFilter : Type 0) : Type 0 where
  pub env_filter : EnvFilter
  pub with_target : Bool
  pub compact : Bool

-- A character of the name of a Rust crate.
abbrev pub IsWordChar : ℕ → Type 0
IsWordChar c =
    ((b'a' ≤ c) × (c ≤ b'z')) ⊎ ((b'A' ≤ c) × (c ≤ b'Z')) ⊎ ((b'0' ≤ c) × (c ≤ b'9')) ⊎ (c ≡ b'_')

pub record Tracing : Type 1 where
  pub EnvFilter : Type 0
  pub Directive : Type 0
  -- The process's subscriber, which is set once.
  pub Global : Type 0
  pub from_default_env : EnvFilter
  -- `Directive::from_str`, `none` on an error.
  pub parse : Text → Option Directive
  -- `LevelFilter::DEBUG.into()`
  pub debug : Directive
  pub add_directive : EnvFilter → Directive → EnvFilter
  pub init : Settings EnvFilter → Global → Outcome Global
  pub installed : Global → Option (Settings EnvFilter)
  -- Whether an `info!` of the program gets to the subscriber, which reads its fields then only.
  pub enabled : Global → Bool
  -- `target=level` is a directive, and `off` a level.
  pub parse_off :
      (target : Text) → target ≢ [] → All IsWordChar target → parse (target ++ codes "=off") ≢ none
  -- `init` panics only if there is a subscriber already.
  pub init_first :
      (s : Settings EnvFilter) (g : Global)
      → installed g ≡ none
      → (g' : Global) × (init s g ≡ returned g') × (installed g' ≡ some s)
  -- It panics if there is one.
  pub init_again : (s : Settings EnvFilter) (g : Global) → installed g ≢ none → init s g ≡ panicked

-- `target=off`, for the name of a crate.
abbrev pub IsOff : Text → Type 0
IsOff d = (target : Text) × (d ≡ target ++ codes "=off") × (target ≢ []) × All IsWordChar target

module _ (t : Tracing) where
  -- `add_directive(d.parse().expect(..))` for one text after another.
  unfoldable pub add_directives : List Text → t.EnvFilter → Option t.EnvFilter
  add_directives [] f = some f
  add_directives (d ∷ ds) f = elim (t.parse d) [
    | none ↦ none
    | some x ↦ add_directives ds (t.add_directive f x)
  ]

  -- The body of `init_logger`, with its directives and what it gives to `with_target`. An error would
  -- be a text; there is none.
  unfoldable pub set_up :
      List Text → Bool → t.Global → t.Global × Outcome (Result (Unit {0}) String)
  unfolding add_directives
  set_up ds with_target g = elim (add_directives ds t.from_default_env) [
    | none ↦ (g, panicked)
    | some filter ↦
        elim (t.init
          (record {
            env_filter = t.add_directive filter t.debug;
            with_target = with_target;
            compact = true;
          })
          g) [ panicked ↦ (g, panicked) | returned g' ↦ (g', returned (ok tt)) ]
  ]

  add_directives_parse :
      (ds : List Text) (f : t.EnvFilter)
      → All IsOff ds
      → (f' : t.EnvFilter) × (add_directives ds f ≡ some f')
  unfolding add_directives
  add_directives_parse [] f h = (f, refl)
  add_directives_parse (d ∷ ds) f ((target, same, named, word), h) =
      elim (Option-cases (t.parse d)) [
        | inl fails ↦ absurd (t.parse_off target named word (rw same at fails))
        | inr (x, parsed) ↦
            let (f', done) = add_directives_parse ds (t.add_directive f x) h in
            (f', rw (parsed, add_directives) done)
      ]

  -- In a process without a subscriber, with directives that switch crates off, one is installed, with
  -- them and the level of debugging.
  pub set_up-installed :
      (ds : List Text) (with_target : Bool) (g : t.Global)
      → All IsOff ds
      → t.installed g ≡ none
      → (filter : t.EnvFilter) × (g' : t.Global) × (add_directives ds t.from_default_env
          ≡ some filter)
        × (set_up ds with_target g ≡ (g', returned (ok tt)))
        × (t.installed g'
            ≡ some (record {
              env_filter = t.add_directive filter t.debug;
              with_target = with_target;
              compact = true;
            }))
  unfolding set_up
  set_up-installed ds with_target g off fresh =
      let (filter, parsed) = add_directives_parse ds t.from_default_env off in
      let (g', done, set) =
        t.init_first
          (record {
            env_filter = t.add_directive filter t.debug;
            with_target = with_target;
            compact = true;
          })
          g fresh in
      (filter, g', parsed, rw (parsed, set_up) (rw (done, set_up)), set)

  -- Where there is a subscriber already, it panics.
  pub set_up-again :
      (ds : List Text) (with_target : Bool) (g : t.Global)
      → All IsOff ds
      → t.installed g ≢ none
      → set_up ds with_target g ≡ (g, panicked)
  unfolding set_up
  set_up-again ds with_target g off taken =
      let (filter, parsed) = add_directives_parse ds t.from_default_env off in
      rw (parsed, set_up)
        (rw (
          t.init_again
              (record {
                env_filter = t.add_directive filter t.debug;
                with_target = with_target;
                compact = true;
              })
              g taken,
          set_up,
        ))

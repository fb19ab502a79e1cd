-- ===== src/CommandLine/Telling.antt =====
-- What a command of src/main.rs tells: its report, or its error.
use gitoxide_fs.Base.{
  ℕ, ◌≡◌, ◌⊎◌, inl, inr, refl, Bool, true, false, none, some, if◌then◌else◌, [], ◌∷◌, ◌++◌, list_eq,
  nat_eq,
}
use gitoxide_fs.Base.Text.{Text}
use gitoxide_fs.Error.Monad.{Result, ok, err, map_err, continue, pure, ◌>>=◌, ◌>>◌}
use gitoxide_fs.Config.{MergeStrategy, new_config}
use gitoxide_fs.Os.{Os}
use gitoxide_fs.Gix.{Gix}
use gitoxide_fs.Forks
use gitoxide_fs.Mounts
use gitoxide_fs.CommandLine.{
  ForkCommands, create, list, merge, abandon, Commands, mount, unmount, status, fork, checkpoint,
  rollback, completions, manpage, Cli, CliError, library, Complaint, Report, unmounted, status_of,
  created, forks, merged, abandoned, checkpointed, rolled_back, completions_for, man_page,
  parse_merge_strategy,
}
use gitoxide_fs.CommandLine.Running.{
  Libraries, Session, finished, run, run_fork, run_merge, say, on_process, with_backend,
  with_manager, fork_at, main, conclude, hint_of,
}

-- Whether a command is not `mount`, which goes on after its report
unfoldable pub is_brief : Commands → Bool
is_brief (mount a) = false
is_brief (unmount mountpoint) = true
is_brief (status path) = true
is_brief (fork action) = true
is_brief (checkpoint name repo) = true
is_brief (rollback commit repo) = true
is_brief (completions shell) = true
is_brief manpage = true

module _ (O : Os) (G : Gix) (L : Libraries O G) (levels all : ℕ) (json : Bool) where
  -- One report was printed, or there is an error and nothing was.
  abbrev Tells : {A : Type 0} → A → Session O G → Result CliError A × Session O G → Type 0
  Tells a s q =
      ((q.0 ≡ ok a) × ((r : Report) × (q.1.printed ≡ s.printed ++ (json, r) ∷ [])))
      ⊎ ((e : CliError) × (q.0 ≡ err e) × (q.1.printed ≡ s.printed))

  -- The report of a result
  say-Tells :
      {A : Type 0} (r : Result CliError A) (report : A → Report) (s t : Session O G)
      → t.printed ≡ s.printed
      → Tells tt s (continue r (λ a. say O G L levels all json (report a)) t)
  say-Tells (ok a) report s t e = inl (refl, (report a, rw e refl))
  say-Tells (err x) report s t e = inr (x, refl, e)

  -- ... and the end of the command
  end-Tells :
      (q : Result CliError Unit × Session O G) (s : Session O G)
      → Tells tt s q
      → Tells finished s (continue q.0 (λ _. pure finished) q.1)
  end-Tells (ok _, t) s (inl h) = inl (refl, h.1)
  end-Tells (ok _, t) s (inr h) = cc
  end-Tells (err x, t) s (inl h) = cc
  end-Tells (err x, t) s (inr h) = inr (x, refl, h.2)

  said :
      {A : Type 0} (r : Result CliError A) (report : A → Report) (s t : Session O G)
      → t.printed ≡ s.printed
      → Tells finished s (continue r (λ a. say O G L levels all json (report a) >> pure finished) t)
  said (ok a) report s t e = inl (refl, (report a, rw e refl))
  said (err x) report s t e = inr (x, refl, e)

  merge-Tells :
      (name repo strategy : Text) (s : Session O G)
      → Tells tt s (run_fork O G L levels all json (merge name repo strategy) s)
  unfolding run_fork
  merge-Tells name repo strategy s = parsed (parse_merge_strategy strategy)
    where
      parsed :
          (r : Result CliError MergeStrategy)
          → Tells tt s (
              continue r
                (λ m.
                  run_merge O G L levels all json name repo m
                  >>= (λ result. say O G L levels all json (merged name result)))
                s)
      parsed (ok m) =
          say-Tells (run_merge O G L levels all json name repo m s).0 (merged name) s
            (run_merge O G L levels all json name repo m s).1 (unfold run_merge in refl)
      parsed (err x) = inr (x, refl, refl)

  fork-Tells :
      (action : ForkCommands) (s : Session O G)
      → Tells tt s (run_fork O G L levels all json action s)
  unfolding run_fork
  fork-Tells (create name repo at) s =
      let r =
        with_manager O G L (new_config repo [])
          (fork_at O G L levels all json (new_config repo []) name at) s.disk in
      say-Tells (map_err library r.0) created s (record s { disk = r.1 }) refl
  fork-Tells (list repo) s =
      let r =
        with_manager O G L (new_config repo [])
          (Forks.list_forks O G L.json L.digest (new_config repo [])) s.disk in
      say-Tells (map_err library r.0) forks s (record s { disk = r.1 }) refl
  fork-Tells (merge name repo strategy) s = merge-Tells name repo strategy s
  fork-Tells (abandon name repo) s =
      let r =
        with_manager O G L (new_config repo [])
          (Forks.abandon_fork O G L.json L.digest (new_config repo []) name) s.disk in
      say-Tells (map_err library r.0) (λ _. abandoned name) s (record s { disk = r.1 }) refl

  run-Tells :
      (c : Commands) (s : Session O G)
      → is_brief c ≡ true
      → Tells finished s (run O G L levels all json c s)
  unfolding run is_brief on_process
  run-Tells (mount a) s h = cc
  run-Tells (unmount mountpoint) s h =
      let r = on_process O G L levels all json (Mounts.unmount O G L.host mountpoint) s in
      said r.0 (λ _. unmounted mountpoint) s r.1 refl
  run-Tells (status path) s h =
      let r = Mounts.new O G L.repositories (new_config path []) s.disk in
      said (map_err library r.0) (λ fs. status_of (Mounts.status O G L.digest all fs)) s
        (record s { disk = r.1 }) refl
  run-Tells (fork action) s h =
      end-Tells (run_fork O G L levels all json action s) s (fork-Tells action s)
  run-Tells (checkpoint name repo) s h =
      let c = new_config repo [] in
      let r = with_backend O G L c (Mounts.checkpoint O G L.digest c name) s.disk in
      said (map_err library r.0) (checkpointed name) s (record s { disk = r.1 }) refl
  run-Tells (rollback commit repo) s h =
      let c = new_config repo [] in
      let r = with_backend O G L c (Mounts.rollback O G L.host c commit) s.disk in
      said (map_err library r.0) (λ _. rolled_back commit) s (record s { disk = r.1 }) refl
  run-Tells (completions shell) s h = inl (refl, (completions_for shell, refl))
  run-Tells manpage s h = inl (refl, (man_page, refl))

-- A command other than `mount` ends in one of two ways: with the exit code 0, one report printed,
-- and no complaint; or with the exit code 1, one complaint, and no report.
pub main_tells :
    (O : Os) (G : Gix) (L : Libraries O G) (levels all : ℕ) (cli : Cli) (s : Session O G)
    → is_brief cli.command ≡ true
    → let q = main O G L levels all cli s in
      ((q.0 ≡ (none, some 0)) × ((r : Report) × (q.1.printed ≡ s.printed ++ (cli.json, r) ∷ [])))
      ⊎ ((c : Complaint) × (q.0 ≡ (some c, some 1)) × (q.1.printed ≡ s.printed))
unfolding main conclude
main_tells O G L levels all cli s h = elim (run-Tells O G L levels all cli.json cli.command s h) [
  | inl told ↦ inl (rw (told.0) refl, told.1)
  | inr failed ↦ inr (
    record { error = failed.0; hint = if cli.json then none else hint_of failed.0 },
    rw (failed.1) refl,
    failed.2,
  )
]

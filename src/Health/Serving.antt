-- ===== src/Health/Serving.antt =====
-- What the loop of src/health.rs answers, and that it ends.
use gitoxide_fs.Base.{
  ℕ, ◌≡◌, ◌≢◌, ◌≤◌, ◌↔◌, ◌⊎◌, refl, arith, Bool, true, false, Option, none, some, List, [], ◌∷◌,
  ◌++◌, length, if◌then◌else◌, ==_iff, list_eq, nat_eq,
}
use gitoxide_fs.Base.Text.{Text, Bytes, codes}
use gitoxide_fs.Error.Monad.{Result, ok, err}
use gitoxide_fs.Os.{Os}
use gitoxide_fs.Gix.{Gix}
use gitoxide_fs.Backend.Opening.{Repositories}
use gitoxide_fs.Mounts.{MountStatus}
use gitoxide_fs.Health.{
  HealthServer, Round, Response, Exit, running, answer, health, ready, not_found_response,
  serve_loop,
}

module _ (O : Os) (G : Gix) where
  abbrev is_err : Result Unit (Option Text) → Bool
  is_err (ok r) = false
  is_err (err e) = true

  -- The rounds before the loop is told to stop, or the server fails
  abbrev pub before_end : List (Round O G) → List (Round O G)
  before_end [] = []
  before_end (r ∷ rounds) =
      let rest = r ∷ before_end rounds in
      if r.stop then [] else if is_err r.received then [] else rest

module _ (O : Os) (G : Gix) (R : Repositories O) (digest : Bytes → Bytes) (all : ℕ)
    (to_json : MountStatus → Result Text Text) (server : HealthServer) where
  abbrev loop : List (Round O G) → List Response × Exit
  loop = serve_loop O G R digest all to_json server

  abbrev respond : Text → Round O G → Response
  respond = answer O G R digest all to_json server

  abbrev reply : Result Unit (Option Text) → Round O G → List Response → List Response
  reply (ok (some url)) r rest = respond url r ∷ rest
  reply (ok none) r rest = rest
  reply (err e) r rest = rest

  -- The answers to the requests of some rounds
  abbrev pub replies : List (Round O G) → List Response
  replies [] = []
  replies (r ∷ rounds) = reply r.received r (replies rounds)

  -- The loop answers exactly the requests that come before its end, each once and in their order.
  pub serve_loop-eq-replies :
      (rounds : List (Round O G)) → (loop rounds).0 ≡ replies (before_end O G rounds)
  unfolding serve_loop
  serve_loop-eq-replies [] = refl
  serve_loop-eq-replies (r ∷ rounds) = ground (arith, serve_loop-eq-replies rounds)

  -- Once the flag is raised the loop of the health server ends: it does not look at what comes behind that round, has
  -- made at most one response for each round before it, and does not go on.
  pub serve_loop_stops :
      (earlier : List (Round O G)) (r : Round O G) (later : List (Round O G))
      → r.stop ≡ true
      → (loop (earlier ++ r ∷ later) ≡ loop (earlier ++ r ∷ []))
        × (length (loop (earlier ++ r ∷ later)).0 ≤ length earlier)
        × ((loop (earlier ++ r ∷ later)).1 ≢ running)
  unfolding serve_loop
  serve_loop_stops [] r later h = ground arith
  serve_loop_stops (e ∷ earlier) r later h = ground (arith, serve_loop_stops earlier r later h)

  -- The health server answers with 200 exactly the path `/health`, and `/health/ready` where the
  -- mount point exists and the flag is not raised; with 503 exactly `/health/ready` otherwise; and
  -- with 404 exactly all other paths.
  pub answer_code :
      (url : Text) (r : Round O G)
      → ((respond url r).status_code ≡ 200
          ↔ (url ≡ codes "/health")
            ⊎ ((url ≡ codes "/health/ready")
                × (O.exists server.mount_point r.disk.os ≡ true)
                × (r.stop_late ≡ false)))
        × ((respond url r).status_code ≡ 503
            ↔ (url ≡ codes "/health/ready")
              × ((O.exists server.mount_point r.disk.os ≡ false) ⊎ (r.stop_late ≡ true)))
        × ((respond url r).status_code ≡ 404
            ↔ (url ≢ codes "/health") × (url ≢ codes "/health/ready"))
  unfolding answer health ready not_found_response
  answer_code url r =
      ground (arith, ==_iff url (codes "/health"), ==_iff url (codes "/health/ready"))

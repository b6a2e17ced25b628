-- ===== src/StorageNode/Main/Runs.antt =====
-- services/storage_node/src/main.cpp: when the process ends, and how.
use microsoft.Base.{
  ℕ, zero, suc, ◌+◌, ◌<◌, ◌≡◌, ◌≢◌, refl, Bool, true, false, Option, none, some, Bool-cases,
  Option-cases, List, [], ◌∷◌, ◌++◌, Bytes, List-cases, inl, inr, codes, arith,
}
use microsoft.Base.Int.{ℤ}
use microsoft.Common.Result.{Result-cases, ok}
use microsoft.Common.Logger.{info, error}
use microsoft.StorageNode.LocalDisk.{Store, construct}
use microsoft.StorageNode.Main.{
  NodeConfig, ServerSettings, Event, prints_error, logs, starts, sleeps, shuts_down, Signal,
  signal_handler, deliver, serve, config_path_of, settings_of, listening, main, Host, Ending, exits,
  terminates, data_dir, start_server,
}

deliver_stays : (signals : List Signal) → deliver signals true ≡ true
unfolding deliver signal_handler
deliver_stays [] = refl
deliver_stays (s ∷ signals) = deliver_stays signals

deliver_set : (signum : Signal) (signals : List Signal) → deliver (signum ∷ signals) false ≡ true
unfolding deliver signal_handler
deliver_set signum signals = deliver_stays signals

-- So many rounds of waiting.
unfoldable pub waits : ℕ → List Event
waits zero = []
waits (suc k) = sleeps ∷ waits k

-- No signal comes before the poll with this number, and one comes before it is made.
abbrev pub IsFirst : (ℕ → List Signal) → ℕ → ℕ → Type 0
IsFirst arrivals n zero = arrivals n ≢ []
IsFirst arrivals n (suc k) = (arrivals n ≡ []) × IsFirst arrivals (n + 1) k

serve-waits :
    (arrivals : ℕ → List Signal) (k n fuel : ℕ)
    → IsFirst arrivals n k
    → k < fuel
    → serve arrivals fuel n false ≡ some (waits k)
unfolding serve waits deliver
serve-waits arrivals k n zero first enough = absurd (omega (arith, enough))
serve-waits arrivals zero n (suc fuel) first enough = elim (List-cases (arrivals n)) [
  | inl quiet ↦ absurd (first quiet)
  | inr (signum, signals, some_come) ↦
      let set : deliver (arrivals n) false ≡ true = rw some_come (deliver_set signum signals) in
      rw (serve, set) refl
]
serve-waits arrivals (suc k) n (suc fuel) (quiet, first) enough =
    rw (serve, quiet) (rw (serve-waits arrivals k (n + 1) fuel first (omega (arith, enough))) refl)

serve_forever :
    (arrivals : ℕ → List Signal)
    → ((n : ℕ) → arrivals n ≡ [])
    → (fuel n : ℕ) → serve arrivals fuel n false ≡ none
unfolding serve deliver
serve_forever arrivals quiet zero n = refl
serve_forever arrivals quiet (suc fuel) n =
    rw (serve, quiet n) (rw (serve_forever arrivals quiet fuel (n + 1)) refl)

-- An independent account of the order of what a process does: one that has not started its server can
-- print or log one error, and then does nothing else; a server that is up logs, sleeps, and is shut
-- down once; after that there is at most a line to log. `none` is another order.
pub data Server : Type 0 where
  not_started refused up down : Server

unfoldable pub follow : Server → List Event → Option Server
follow server [] = some server
follow not_started (prints_error _ ∷ events) = follow refused events
follow not_started (logs error _ ∷ events) = follow refused events
follow not_started (starts _ ∷ events) = follow up events
follow up (logs info _ ∷ events) = follow up events
follow up (sleeps ∷ events) = follow up events
follow up (shuts_down ∷ events) = follow down events
follow down (logs info _ ∷ events) = follow down events
follow _ _ = none

-- The state of the server that each way to end tells of.
abbrev pub told : Ending → Option Server
told (exits zero) = some down
told (exits (suc zero)) = some refused
told (exits (suc (suc _))) = none
told terminates = some not_started

-- So many polls, from this number on, before which no signal comes.
abbrev pub AreQuiet : (ℕ → List Signal) → ℕ → ℕ → Type 0
AreQuiet arrivals n zero = Unit
AreQuiet arrivals n (suc k) = (arrivals n ≡ []) × AreQuiet arrivals (n + 1) k

-- A process that has not ended after so many polls has seen no signal; one that has ended has done
-- what its end tells of.
abbrev pub IsOrderly : (ℕ → List Signal) → ℕ → Option (Ending × List Event) → Type 0
IsOrderly arrivals fuel none = AreQuiet arrivals 0 fuel
IsOrderly arrivals fuel (some (ending, events)) =
    (server : Server) × (follow not_started events ≡ some server) × (told ending ≡ some server)

serve-AreQuiet :
    (arrivals : ℕ → List Signal) (fuel n : ℕ)
    → serve arrivals fuel n false ≡ none
    → AreQuiet arrivals n fuel
unfolding serve deliver
serve-AreQuiet arrivals zero n e = tt
serve-AreQuiet arrivals (suc fuel) n e = elim (List-cases (arrivals n)) [
  | inr (signum, signals, some_come) ↦
      let set : deliver (arrivals n) false ≡ true = rw some_come (deliver_set signum signals) in
      let opened : serve arrivals (suc fuel) n false ≡ some [] = rw (serve, set) refl in absurd cc
  | inl quiet ↦ elim (Option-cases (serve arrivals fuel (n + 1) false)) [
    | inl still_runs ↦ (quiet, serve-AreQuiet arrivals fuel (n + 1) still_runs)
    | inr (more, served) ↦
        let opened : serve arrivals (suc fuel) n false ≡ some (sleeps ∷ more) =
          rw (serve, quiet) (rw served refl) in
        absurd cc
  ]
]

follow-serve :
    (arrivals : ℕ → List Signal) (fuel n : ℕ) (requested : Bool) (events rest : List Event)
    → serve arrivals fuel n requested ≡ some events
    → follow up (events ++ rest) ≡ follow up rest
unfolding serve follow
follow-serve arrivals zero n requested events rest e = absurd cc
follow-serve arrivals (suc fuel) n requested events rest e =
    elim (Bool-cases (deliver (arrivals n) requested)) [
      | inl set ↦
          let opened : serve arrivals (suc fuel) n requested ≡ some [] = rw (serve, set) refl in
          let same : [] ≡ events = cc in rw (← same) refl
      | inr quiet ↦ elim (Option-cases (serve arrivals fuel (n + 1) false)) [
        | inl still_runs ↦
            let opened : serve arrivals (suc fuel) n requested ≡ none =
              rw (serve, quiet, still_runs) refl in
            absurd cc
        | inr (more, served) ↦
            let opened : serve arrivals (suc fuel) n requested ≡ some (sleeps ∷ more) =
              rw (serve, quiet, served) refl in
            let same : sleeps ∷ more ≡ events = cc in
            rw (← same) (follow-serve arrivals fuel (n + 1) false more rest served)
      ]
    ]

module _ {C : Type 0} (config : NodeConfig C) (to_string : ℤ → Bytes) (host : Host) where
  -- With a configuration that loads, a logger and a store that can be constructed and an address that
  -- can be bound, the process starts the server, sleeps between its polls as long as no signal has
  -- come, and after the first one stops the server, once, and exits with 0. More fuel than polls is
  -- enough.
  pub main_serves :
      (arrivals : ℕ → List Signal) (argv : List Bytes) (c : C) (st : Store) (k fuel : ℕ)
      → config.load (config_path_of argv) ≡ ok c
      → host.logger_opens ≡ true
      → construct host.env (host.files (data_dir config c)) ≡ some st
      → host.build_and_start (settings_of config c st) ≡ true
      → IsFirst arrivals 0 k
      → k < fuel
      → let settings = settings_of config c st in
        main config to_string host arrivals fuel argv
        ≡ some (
          exits 0,
          starts settings
              ∷ logs info (listening config to_string host settings)
              ∷ (waits k
                  ++ logs info (codes "Shutdown requested. Gracefully shutting down gRPC server...")
                    ∷ shuts_down
                    ∷ logs info (codes "Shutdown complete.")
                    ∷ []),
        )
  unfolding main start_server
  main_serves arrivals argv c st k fuel loaded opens constructed bound first enough =
      rw
        (
          main,
          loaded,
          opens,
          constructed,
          start_server,
          bound,
          serve-waits arrivals k 0 fuel first enough,
        )
        refl

  start_server-IsOrderly :
      (arrivals : ℕ → List Signal) (fuel : ℕ) (settings : ServerSettings)
      → IsOrderly arrivals fuel (start_server config to_string host arrivals fuel settings)
  unfolding start_server follow
  start_server-IsOrderly arrivals fuel settings =
      elim (Bool-cases (host.build_and_start settings)) [
        | inr taken ↦ rw (start_server, taken) (refused, refl, refl)
        | inl bound ↦ elim (Option-cases (serve arrivals fuel 0 false)) [
          | inl still_runs ↦
              rw (start_server, bound, still_runs) (serve-AreQuiet arrivals fuel 0 still_runs)
          | inr (events, served) ↦
              rw (start_server, bound, served)
                (down, follow-serve arrivals fuel 0 false events _ served, refl)
        ]
      ]

  -- However a process ends, whatever signals come and whatever fails, it ends in one of three ways. It
  -- exits with 0: then it has started the server once and then shut it down once, with nothing but
  -- sleeps and lines of information besides. It exits with 1: then it has printed or logged one error
  -- and done nothing else. Or an exception ends it, before it has started a server or said anything.
  -- And if it has not ended after a number of polls of the flag, no signal has come before them.
  pub main-IsOrderly :
      (arrivals : ℕ → List Signal) (fuel : ℕ) (argv : List Bytes)
      → IsOrderly arrivals fuel (main config to_string host arrivals fuel argv)
  unfolding main follow
  main-IsOrderly arrivals fuel argv = elim (Result-cases (config.load (config_path_of argv))) [
    | inl (e, fails) ↦ rw (main, fails) (refused, refl, refl)
    | inr (c, loaded) ↦ elim (Bool-cases host.logger_opens) [
      | inr closed ↦ rw (main, loaded, closed) (not_started, refl, refl)
      | inl opens ↦ elim (Option-cases (construct host.env (host.files (data_dir config c)))) [
        | inl throws ↦ rw (main, loaded, opens, throws) (not_started, refl, refl)
        | inr (st, constructed) ↦
            rw (main, loaded, opens, constructed)
              (start_server-IsOrderly arrivals fuel (settings_of config c st))
      ]
    ]
  ]

-- ===== src/Client/Program.antt =====
-- host/apogee_ground_client.cpp: `main`.
use apogee_fc.Base.{ℕ, List, [], ◌∷◌, Option, codes, text_eq, if◌then◌else◌}
use apogee_fc.Client.Socket.{Lookup, Connecting, ConnectError, connect_tcp}
use apogee_fc.Client.Offline.{File, OfflineRun, run_offline}
use apogee_fc.Client.Live.{Turn, Step, run_live}

-- What the program finds outside: files by their path, addresses by host and port, and what the system
-- calls of a session return.
pub record World : Type 0 where
  pub file : List ℕ → Option File
  pub lookup : List ℕ → List ℕ → Lookup
  pub turns : List Turn

-- A run over a file, a session, or the usage text with exit code 1.
pub data Run : Type 0 where
  offline : OfflineRun → Run
  live : Connecting → List ConnectError → Step → Run
  usage : Run

abbrev run_session : Lookup → List Turn → Run
run_session lookup turns =
    let (connecting, errors) = connect_tcp lookup in
    live connecting errors (run_live connecting.status turns)

-- `argv`, of which the first is the program's own name.
unfoldable pub main : World → List (List ℕ) → Run
main w (_ ∷ path ∷ []) = offline (run_offline (w.file path))
main w (_ ∷ option ∷ host ∷ port ∷ []) =
    if text_eq option (codes "--connect") then run_session (w.lookup host port) w.turns else usage
main w _ = usage

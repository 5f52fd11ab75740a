-- ===== src/Epoch/Live.antt =====
-- The stores that an epoch (src/unigrok_public/mission/epoch.py) passes through.
use grok_mcp_server.Base.{ℕ, ◌≡◌, refl, ◌∙◌, ap, some, List, [], ◌∷◌, ◌++◌}
use grok_mcp_server.Base.Tables.Keys.{IsKeyed}
use grok_mcp_server.Missions.State.{Mission, MissionStore, load_mission}
use grok_mcp_server.Missions.Calls.{Call, run, perform}
use grok_mcp_server.Missions.Evolution.Rows.{Tables-IsKeyed}
use grok_mcp_server.Missions.Evolution.Operations.{run-Tables, run-Evolves}
use grok_mcp_server.Epoch.{or_row}

abbrev pub IsUnique : MissionStore → Type 0
IsUnique db = IsKeyed (λ (m : Mission). m.mission_id) db.missions

-- A store that calls reach from the one in which the epoch starts, with unique ids, and the row in it of the
-- epoch's mission.
pub record Live (id : ℕ) (start db : MissionStore) : Type 0 where
  pub calls : List Call
  pub reaches : run calls start ≡ db
  pub unique : IsUnique db
  pub row : Mission
  pub loads : load_mission id db ≡ some row

-- A row that was read in a store on the way to another.
pub record Read (id : ℕ) (start : MissionStore) (m : Mission) (db : MissionStore) : Type 0 where
  pub calls : List Call
  pub loads : load_mission id (run calls start) ≡ some m
  pub later : List Call
  pub reaches : run later (run calls start) ≡ db

run-append : (cs ds : List Call) (db : MissionStore) → run (cs ++ ds) db ≡ run ds (run cs db)
unfolding run
run-append [] ds db = refl
run-append (c ∷ cs) ds db = run-append cs ds (perform c db).1

pub run-Live :
    {id : ℕ} {start : MissionStore} (cs : List Call) (db : MissionStore)
    → Live id start db
    → Live id start (run cs db)
run-Live {id} {start} cs db u =
    let (row, found, grown) = run-Evolves cs id u.row db u.loads in
    record {
      calls = u.calls ++ cs;
      reaches = run-append u.calls cs start ∙ ap (run cs) u.reaches;
      unique = Tables-IsKeyed (run-Tables cs db) u.unique;
      row = row;
      loads = found;
    }

pub perform-Live :
    {id : ℕ} {start : MissionStore} (c : Call) (db : MissionStore)
    → Live id start db
    → Live id start (perform c db).1
unfolding run
perform-Live c db u = run-Live (c ∷ []) db u

pub run-Read :
    {id : ℕ} {start : MissionStore} {m : Mission} (cs : List Call) (db : MissionStore)
    → Read id start m db
    → Read id start m (run cs db)
run-Read {id} {start} {m} cs db r = record {
  calls = r.calls;
  loads = r.loads;
  later = r.later ++ cs;
  reaches = run-append r.later cs (run r.calls start) ∙ ap (run cs) r.reaches;
}

pub perform-Read :
    {id : ℕ} {start : MissionStore} {m : Mission} (c : Call) (db : MissionStore)
    → Read id start m db
    → Read id start m (perform c db).1
unfolding run
perform-Read c db r = run-Read (c ∷ []) db r

-- What is read in a live store.
pub or_row-Read :
    {id : ℕ} {start : MissionStore} (old : Mission) (db : MissionStore)
    → Live id start db
    → Read id start (or_row (load_mission id db) old) db
unfolding run
or_row-Read {id} {start} old db u = record {
  calls = u.calls;
  loads = rw (u.reaches, u.loads) refl;
  later = [];
  reaches = u.reaches;
}

pub or_row-loads :
    {id : ℕ} {start : MissionStore} (old : Mission) (db : MissionStore)
    → Live id start db
    → load_mission id db ≡ some (or_row (load_mission id db) old)
or_row-loads old db u = rw (u.loads) refl

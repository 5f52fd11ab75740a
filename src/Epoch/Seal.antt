-- ===== src/Epoch/Seal.antt =====
-- From what the ends of the steps mean to the ends of `seal_mission_epoch`
-- (src/unigrok_public/mission/epoch.py).
use grok_mcp_server.Base.{
  ℕ, ◌+◌, ◌≡◌, ◌≢◌, sym, inl, inr, Option-cases, [], true, subst, refl, none, some, List,
}
use grok_mcp_server.Base.Tables.Keys.{IsKeyed}
use grok_mcp_server.Missions.Status.{failed, is_terminal}
use grok_mcp_server.Missions.State.{Mission, MissionStore, load_mission}
use grok_mcp_server.Missions.Calls.{Call, run}
use grok_mcp_server.Verification.Commit.{Host}
use grok_mcp_server.Epoch.{
  Codec, Quantum, Outcome, missing, failed_done, committed, durable, worker_token_of,
}
use grok_mcp_server.Epoch.Run.{Sealed, own, opening_of, seal_loaded, seal_mission_epoch}
use grok_mcp_server.Epoch.Live.{IsUnique, Live}
use grok_mcp_server.Epoch.Committed.{Committed, Failed, Reports, Ends, if-Ends}
use grok_mcp_server.Epoch.Steps.{own-Ends}

module _ (host : Host) (codec : Codec) (q : Quantum) (between : ℕ → List Call) (clock : ℕ → ℕ) where
  -- The end of an epoch on a mission that was there when it began.
  abbrev SealEnds : Mission → (start : MissionStore) → Sealed → Type 0
  SealEnds m start r =
      Ends host codec q (opening_of host codec q m) between clock (worker_token_of q m) start r

  seal_loaded-Ends :
      (m : Mission) (db : MissionStore)
      → Live q.mission_id db db
      → load_mission q.mission_id db ≡ some m
      → SealEnds m db (seal_loaded host codec q between clock (some m) db)
  seal_loaded-Ends m db u found =
      if-Ends host codec q (opening_of host codec q m) between clock (worker_token_of q m) db
        (is_terminal m.status) (durable m, db)
        (own host codec q (opening_of host codec q m) between clock (worker_token_of q m) m db)
        (λ t. (u, (t, found)))
        (λ f.
          own-Ends host codec q (opening_of host codec q m) between clock (worker_token_of q m) db m
            db u)

  seal-Ends :
      (m : Mission) (db : MissionStore)
      → IsUnique db
      → load_mission q.mission_id db ≡ some m
      → SealEnds m db (seal_mission_epoch host codec q between clock db)
  unfolding seal_mission_epoch run
  seal-Ends m db unique found = rw found (
      seal_loaded-Ends m db
        (record { calls = []; reaches = refl; unique = unique; row = m; loads = found }) found)

loaded-first :
    (host : Host) (codec : Codec) (q : Quantum) (between : ℕ → List Call) (clock : ℕ → ℕ)
    (db : MissionStore) (o : Outcome)
    → o ≢ missing
    → (seal_mission_epoch host codec q between clock db).0 ≡ o
    → (m : Mission) × (load_mission q.mission_id db ≡ some m)
unfolding seal_mission_epoch
loaded-first host codec q between clock db o other h =
    elim (Option-cases (load_mission q.mission_id db)) [
      | inl gone ↦ absurd (other (sym (rw gone at h)))
      | inr there ↦ there
    ]

-- In a store with unique mission ids, whatever other calls come between its own, an epoch that ends
-- as committed has been accepted by the verifier, on the mission as the epoch read it on the way and
-- on the evidence that the store of the check has of it. After the check the mission was read again
-- and was still the worker's. In the store of the last swap it was `verifying`, at the version that
-- was read, under the worker's token and generation; the epoch leaves the store of this swap, in which
-- the mission is complete, at the next generation, its lease given up and the verdict in its
-- checkpoint.
pub seal_mission_epoch-committed :
    (host : Host) (codec : Codec) (q : Quantum) (between : ℕ → List Call) (clock : ℕ → ℕ)
    (db : MissionStore)
    → IsKeyed (λ (m : Mission). m.mission_id) db.missions
    → (seal_mission_epoch host codec q between clock db).0 ≡ committed
    → (m : Mission) × (load_mission q.mission_id db ≡ some m)
      × Committed host codec q
          (opening_of host codec q m)
          between
          clock
          (worker_token_of q m)
          db
          (seal_mission_epoch host codec q between clock db).1
seal_mission_epoch-committed host codec q between clock db keyed h =
    let (m, found) = loaded-first host codec q between clock db committed (λ e. cc) h in
    (
      m,
      found,
      subst
          (λ o.
            Reports host codec q (opening_of host codec q m) between clock (worker_token_of q m) db
              o (seal_mission_epoch host codec q between clock db).1)
          h (seal-Ends host codec q between clock m db keyed found).1,
    )

-- In a store with unique mission ids, whatever other calls come between its own: an epoch that reports
-- a durable end gives the row that the store which it leaves has of the mission, and this row is
-- terminal.
pub seal_mission_epoch-durable :
    (host : Host) (codec : Codec) (q : Quantum) (between : ℕ → List Call) (clock : ℕ → ℕ)
    (db : MissionStore) (m : Mission)
    → IsKeyed (λ (x : Mission). x.mission_id) db.missions
    → (seal_mission_epoch host codec q between clock db).0 ≡ durable m
    → (is_terminal m.status ≡ true)
      × (load_mission q.mission_id (seal_mission_epoch host codec q between clock db).1 ≡ some m)
seal_mission_epoch-durable host codec q between clock db m keyed h =
    let (first, found) = loaded-first host codec q between clock db (durable m) (λ e. cc) h in
    subst
      (λ o.
        Reports host codec q (opening_of host codec q first) between clock (worker_token_of q first)
          db o (seal_mission_epoch host codec q between clock db).1)
      h (seal-Ends host codec q between clock first db keyed found).1

-- In a store with unique mission ids, whatever other calls come between its own: an epoch that ends in
-- FailDone leaves a store whose mission is failed, at the generation after the worker's, with no lease.
pub seal_mission_epoch-failed :
    (host : Host) (codec : Codec) (q : Quantum) (between : ℕ → List Call) (clock : ℕ → ℕ)
    (db : MissionStore)
    → IsKeyed (λ (x : Mission). x.mission_id) db.missions
    → (seal_mission_epoch host codec q between clock db).0 ≡ failed_done
    → (row : Mission) × (load_mission q.mission_id
          (seal_mission_epoch host codec q between clock db).1
        ≡ some row)
      × (row.status ≡ failed)
      × (row.lease_token ≡ none)
      × (row.lease_generation ≡ q.lease_generation + 1)
seal_mission_epoch-failed host codec q between clock db keyed h =
    let (first, found) = loaded-first host codec q between clock db failed_done (λ e. cc) h in
    let f : Failed host codec q (opening_of host codec q first) between clock
        (worker_token_of q first) db (seal_mission_epoch host codec q between clock db).1 =
      subst
        (λ o.
          Reports host codec q (opening_of host codec q first) between clock
            (worker_token_of q first) db o (seal_mission_epoch host codec q between clock db).1)
        h (seal-Ends host codec q between clock first db keyed found).1 in
    (f.row, f.found, f.status, f.released, f.generation)

-- ===== src/Threads.antt =====
-- utils/msg_server.py (siri_server.py has the same lines): the thread that accepts connections, the
-- threads that handle them, and the joining of those that have ended, as steps in any order.
pub mod Safety
pub mod Progress
use minitopo.Base.{
  ℕ, zero, suc, ◌+◌, ◌≡◌, Bool, true, false, List, [], ◌∷◌, ◌++◌, if◌then◌else◌, eqb,
}

-- A thread that handles a connection; `leaving` has appended itself to `to_join`.
pub data Status : Type 0 where
  unborn running leaving ended : Status

-- Where the main thread stands; `registered` and the others hold the identifier of a thread.
-- A `failed` main thread has met a `KeyError`.
pub data Main : Type 0 where
  accepting joining failed : Main
  registered popped joined : ℕ → Main

-- `threads` has the keys of the dictionary.
pub record Server : Type 0 where
  pub threads : List ℕ
  pub to_join : List ℕ
  pub conn_id : ℕ
  pub main : Main
  pub status : ℕ → Status

abbrev pub set_status : ℕ → Status → (ℕ → Status) → ℕ → Status
set_status i s f j = if eqb i j then s else f j

-- How often an identifier stands in a list.
abbrev pub count : ℕ → List ℕ → ℕ
count i [] = 0
count i (j ∷ l) = let rest = count i l in if eqb j i then suc rest else rest

-- `d[i] = v`, as far as the keys.
unfoldable pub put_key : ℕ → List ℕ → List ℕ
put_key i [] = i ∷ []
put_key i (j ∷ l) = if eqb j i then j ∷ l else j ∷ put_key i l

-- `del d[i]`, as far as the keys.
unfoldable pub delete_key : ℕ → List ℕ → List ℕ
delete_key i [] = []
delete_key i (j ∷ l) = if eqb j i then l else j ∷ delete_key i l

pub data Step (s t : Server) : Type 0 where
  -- `sock.accept()` returns, the thread is made and registered, and the identifier is counted up.
  accept :
      s.main ≡ accepting
      → t ≡ record s {
        threads = put_key s.conn_id s.threads;
        conn_id = s.conn_id + 1;
        main = registered s.conn_id;
      }
      → Step s t
  -- `thread.start()`
  start :
      (i : ℕ)
      → s.main ≡ registered i
      → t ≡ record s { main = joining; status = set_status i running s.status }
      → Step s t
  -- `to_join.append(self.id)` of a thread whose connection has ended
  leave :
      (i : ℕ)
      → s.status i ≡ running
      → t ≡ record s { to_join = s.to_join ++ i ∷ []; status = set_status i leaving s.status }
      → Step s t
  -- The thread returns from `run`.
  return :
      (i : ℕ)
      → s.status i ≡ leaving
      → t ≡ record s { status = set_status i ended s.status }
      → Step s t
  -- The test of `while` fails.
  stop : s.main ≡ joining → s.to_join ≡ [] → t ≡ record s { main = accepting } → Step s t
  -- `to_join.pop()`
  pop :
      (l : List ℕ) (i : ℕ)
      → s.main ≡ joining
      → s.to_join ≡ l ++ i ∷ []
      → t ≡ record s { to_join = l; main = popped i }
      → Step s t
  -- `threads[i].join()`, which waits for the thread to end
  join :
      (i k : ℕ)
      → s.main ≡ popped i
      → count i s.threads ≡ suc k
      → s.status i ≡ ended
      → t ≡ record s { main = joined i }
      → Step s t
  join_missing :
      (i : ℕ)
      → s.main ≡ popped i
      → count i s.threads ≡ 0
      → t ≡ record s { main = failed }
      → Step s t
  -- `del threads[i]`
  delete :
      (i k : ℕ)
      → s.main ≡ joined i
      → count i s.threads ≡ suc k
      → t ≡ record s { threads = delete_key i s.threads; main = joining }
      → Step s t
  delete_missing :
      (i : ℕ)
      → s.main ≡ joined i
      → count i s.threads ≡ 0
      → t ≡ record s { main = failed }
      → Step s t

pub data Steps (s : Server) : Server → Type 0 where
  here : Steps s s
  then_step : {t u : Server} → Steps s t → Step t u → Steps s u

-- Before the first connection.
unfoldable pub new_server : Server
new_server = record {
  threads = [];
  to_join = [];
  conn_id = 0;
  main = accepting;
  status = λ i. unborn;
}

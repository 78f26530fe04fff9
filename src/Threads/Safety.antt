-- ===== src/Threads/Safety.antt =====
-- utils/msg_server.py: in whatever order the threads take their steps, none of them is missing
-- where it is joined.
use minitopo.Base.{
  ℕ, suc, ◌+◌, ◌≤◌, ◌≡◌, ◌≢◌, refl, ap, List, [], ◌∷◌, ◌++◌, arith, if◌then◌else◌, eqb,
}
use minitopo.Threads.{
  Status, unborn, running, Main, failed, registered, popped, joined, Server, count, put_key,
  delete_key, Step, accept, start, leave, return, stop, pop, join, join_missing, delete,
  delete_missing, Steps, here, then_step, new_server,
}

count-append : (i : ℕ) (a b : List ℕ) → count i (a ++ b) ≡ count i a + count i b
count-append i [] b = omega arith
count-append i (j ∷ a) b = ground (arith, count-append i a b)

count-put_key :
    (i j : ℕ) (l : List ℕ)
    → count j l ≡ 0
    → count i (put_key j l) ≡ (if eqb j i then suc (count i l) else count i l)
unfolding put_key
count-put_key i j [] h = ground arith
count-put_key i j (k ∷ l) h = ground (arith, count-put_key i j l)

count-delete_key :
    (i j k : ℕ) (l : List ℕ)
    → count j l ≡ suc k
    → count i (delete_key j l) + (if eqb j i then 1 else 0) ≡ count i l
unfolding delete_key
count-delete_key i j k [] h = cc
count-delete_key i j k (m ∷ l) h = ground (arith, count-delete_key i j k l)

-- Is the main thread about to join this thread?
abbrev pub held : Main → ℕ → ℕ
held (popped i) j = if eqb i j then 1 else 0
held (joined i) j = if eqb i j then 1 else 0
held _ j = 0

abbrev pub made : Main → ℕ → ℕ
made (registered i) j = if eqb i j then 1 else 0
made _ j = 0

-- Where a thread stands in the two containers, by its status.
abbrev Placed : Status → (threads to_join held made : ℕ) → Type 0
Placed unborn t q h m = (q + h ≡ 0) × (t ≡ m)
Placed running t q h m = (q + h ≡ 0) × (t ≡ 1) × (m ≡ 0)
Placed _ t q h m = (t ≡ q + h) × (q + h ≤ 1) × (m ≡ 0)

pub record IsConsistent (s : Server) : Type 0 where
  pub alive : s.main ≢ failed
  pub placed :
      (i : ℕ)
      → Placed (s.status i) (count i s.threads) (count i s.to_join) (held s.main i) (made s.main i)
  pub later : (i : ℕ) → s.conn_id ≤ i → (s.status i ≡ unborn) × (made s.main i ≡ 0)

new_server-IsConsistent : IsConsistent new_server
unfolding new_server
new_server-IsConsistent = record {
  alive = λ h. cc h;
  placed = λ i. (refl, refl);
  later = λ i h. (refl, refl);
}

pub Step-IsConsistent : (s t : Server) → Step s t → IsConsistent s → IsConsistent t
Step-IsConsistent s t (accept m e) v = rw e (record {
  alive = λ h. cc h;
  placed = λ j. ground (
    arith,
    m,
    v.placed j,
    v.later s.conn_id,
    v.placed s.conn_id,
    count-put_key j s.conn_id s.threads,
  );
  later = λ j h. ground (arith, m, v.later j);
})
Step-IsConsistent s t (start i m e) v = rw e (record {
  alive = λ h. cc h;
  placed = λ j. ground (arith, m, v.placed j);
  later = λ j h. ground (arith, m, v.later j);
})
Step-IsConsistent s t (leave i r e) v = rw e (record {
  alive = v.alive;
  placed = λ j. ground (arith, r, v.placed j, count-append j s.to_join (i ∷ []));
  later = λ j h. ground (arith, r, v.later j);
})
Step-IsConsistent s t (return i r e) v = rw e (record {
  alive = v.alive;
  placed = λ j. ground (arith, r, v.placed j);
  later = λ j h. ground (arith, r, v.later j);
})
Step-IsConsistent s t (stop m q e) v = rw e (record {
  alive = λ h. cc h;
  placed = λ j. ground (arith, m, v.placed j);
  later = λ j h. ground (arith, m, v.later j);
})
Step-IsConsistent s t (pop l i m q e) v = rw e (record {
  alive = λ h. cc h;
  placed = λ j. ground (arith, m, v.placed j, ap (count j) q, count-append j l (i ∷ []));
  later = λ j h. ground (arith, m, v.later j);
})
Step-IsConsistent s t (join i k m h r e) v = rw e (record {
  alive = λ h. cc h;
  placed = λ j. ground (arith, m, v.placed j);
  later = λ j h. ground (arith, m, v.later j);
})
Step-IsConsistent s t (join_missing i m h e) v = absurd (ground (arith, m, v.placed i))
Step-IsConsistent s t (delete i k m h e) v = rw e (record {
  alive = λ h. cc h;
  placed = λ j. ground (arith, m, v.placed j, count-delete_key j i k s.threads h);
  later = λ j h. ground (arith, m, v.later j);
})
Step-IsConsistent s t (delete_missing i m h e) v = absurd (ground (arith, m, v.placed i))

Steps-kept : (s t : Server) → Steps s t → IsConsistent s → IsConsistent t
Steps-kept s t here v = v
Steps-kept s t (then_step {t = m} path step) v = Step-IsConsistent m t step (Steps-kept s m path v)

-- In every order of the steps: no thread that the server joins or deletes is missing, so that it
-- does not fail. A thread that is not started is in no container, but for the one that is being
-- registered, a running one is registered and not to be joined, and one that has left is registered
-- as long as it is to be joined, once at most; identifiers from `conn_id` on are not in use.
pub Steps-IsConsistent : (s : Server) → Steps new_server s → IsConsistent s
Steps-IsConsistent s path = Steps-kept new_server s path new_server-IsConsistent

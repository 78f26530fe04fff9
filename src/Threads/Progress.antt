-- ===== src/Threads/Progress.antt =====
-- utils/msg_server.py: the server always comes back to accepting connections.
use minitopo.Base.{
  ℕ, zero, suc, ◌+◌, ◌*◌, ◌≤◌, ◌≡◌, ◌⊎◌, inl, inr, refl, ap, ◌∙◌, List, [], ◌∷◌, ◌++◌, arith,
  length, length-append,
}
use minitopo.Threads.{
  accept, leave, join_missing, delete_missing, Status, unborn, running, leaving, ended, Main,
  accepting, joining, failed, registered, popped, joined, Server, set_status, count, delete_key,
  Step, start, return, stop, pop, join, delete, Steps, here, then_step, new_server,
}
use minitopo.Threads.Safety.{IsConsistent, Step-IsConsistent, Steps-IsConsistent}

-- A step of the server itself: no connection arrives, and none ends.
abbrev IsOwn : {s t : Server} → Step s t → Type 0
IsOwn (accept _ _) = ⊥
IsOwn (leave _ _ _) = ⊥
IsOwn _ = Unit

pub data OwnSteps (s : Server) : Server → Type 0 where
  own_here : OwnSteps s s
  then_own : {t u : Server} → OwnSteps s t → (step : Step t u) → IsOwn step → OwnSteps s u

OwnSteps-append : {s t u : Server} → OwnSteps s t → OwnSteps t u → OwnSteps s u
OwnSteps-append p own_here = p
OwnSteps-append p (then_own q step own) = then_own (OwnSteps-append p q) step own

-- A state that can be reached from `s` by steps of the server itself.
record Reached (s : Server) (P : Server → Type 0) : Type 0 where
  target : Server
  path : OwnSteps s target
  holds : P target

extend :
    {s t : Server} {P : Server → Type 0} (step : Step s t) → IsOwn step → Reached t P → Reached s P
extend step own r = record {
  target = r.target;
  path = OwnSteps-append (then_own own_here step own) r.path;
  holds = r.holds;
}

-- The main thread is at the test of its loop, with these threads to join.
record IsJoining (l : List ℕ) (s : Server) : Type 0 where
  consistent : IsConsistent s
  at_test : s.main ≡ joining
  queue : s.to_join ≡ l

delete_joined :
    (s : Server) (i : ℕ) → IsConsistent s → s.main ≡ joined i → Reached s (IsJoining s.to_join)
delete_joined s i v m =
    let t : Server = record s { threads = delete_key i s.threads; main = joining } in
    let one : count i s.threads ≡ 1 = ground (arith, m, v.placed i) in
    let step : Step s t = delete i 0 m one refl in
    record {
      target = t;
      path = then_own own_here step tt;
      holds = record { consistent = Step-IsConsistent s t step v; at_test = refl; queue = refl };
    }

join_popped :
    (s : Server) (i : ℕ)
    → IsConsistent s
    → s.main ≡ popped i
    → s.status i ≡ ended
    → Reached s (IsJoining s.to_join)
join_popped s i v m e =
    let t : Server = record s { main = joined i } in
    let one : count i s.threads ≡ 1 = ground (arith, m, v.placed i) in
    let step : Step s t = join i 0 m one e refl in
    extend step tt (delete_joined t i (Step-IsConsistent s t step v) refl)

-- A thread that has appended itself ends, and can be joined.
await_popped :
    (s : Server) (i : ℕ)
    → IsConsistent s
    → s.main ≡ popped i
    → (s.status i ≡ leaving) ⊎ (s.status i ≡ ended)
    → Reached s (IsJoining s.to_join)
await_popped s i v m (inr e) = join_popped s i v m e
await_popped s i v m (inl e) =
    let t : Server = record s { status = set_status i ended s.status } in
    let step : Step s t = return i e refl in
    extend step tt (join_popped t i (Step-IsConsistent s t step v) m (ground arith))

left_popped :
    (s : Server) (i : ℕ)
    → IsConsistent s
    → s.main ≡ popped i
    → (s.status i ≡ leaving) ⊎ (s.status i ≡ ended)
left_popped s i v m = cases (s.status i) refl
  where
    cases : (u : Status) → s.status i ≡ u → (s.status i ≡ leaving) ⊎ (s.status i ≡ ended)
    cases unborn e = absurd (ground (arith, m, e, v.placed i))
    cases running e = absurd (ground (arith, m, e, v.placed i))
    cases leaving e = inl e
    cases ended e = inr e

join_one :
    (s : Server) (i : ℕ) → IsConsistent s → s.main ≡ popped i → Reached s (IsJoining s.to_join)
join_one s i v m = await_popped s i v m (left_popped s i v m)

last_of : (i : ℕ) (l : List ℕ) → (k : List ℕ) × (j : ℕ) × (i ∷ l ≡ k ++ j ∷ [])
last_of i [] = ([], i, refl)
last_of i (j ∷ l) = let (k, m, e) = last_of j l in (i ∷ k, m, ap (λ x. i ∷ x) e)

-- The loop ends, since each round leaves one thread less to join.
drain :
    (n : ℕ) (s : Server) (l : List ℕ)
    → length l ≡ n
    → IsJoining l s
    → Reached s (λ t. t.main ≡ accepting)
drain n s [] size j = record {
  target = record s { main = accepting };
  path = then_own own_here (stop j.at_test j.queue refl) tt;
  holds = refl;
}
drain zero s (i ∷ l) size j = absurd (omega (arith, size))
drain (suc n) s (i ∷ l) size j =
    let (k, m, e) = last_of i l in
    let t : Server = record s { to_join = k; main = popped m } in
    let step : Step s t = pop k m j.at_test (j.queue ∙ e) refl in
    let r = join_one t m (Step-IsConsistent s t step j.consistent) refl in
    let rest =
      drain n r.target k (omega (arith, size, ap length e, length-append k (m ∷ []))) r.holds in
    record {
      target = rest.target;
      path = OwnSteps-append (then_own own_here step tt) (OwnSteps-append r.path rest.path);
      holds = rest.holds;
    }

join_then_drain :
    (s : Server) (l : List ℕ) → Reached s (IsJoining l) → Reached s (λ t. t.main ≡ accepting)
join_then_drain s l r =
    let rest = drain (length l) r.target l refl r.holds in
    record { target = rest.target; path = OwnSteps-append r.path rest.path; holds = rest.holds }

accepts_again :
    (s : Server) → IsConsistent s → (m : Main) → s.main ≡ m → Reached s (λ t. t.main ≡ accepting)
accepts_again s v accepting e = record { target = s; path = own_here; holds = e }
accepts_again s v failed e = absurd (v.alive e)
accepts_again s v joining e =
    drain (length s.to_join) s s.to_join refl (record { consistent = v; at_test = e; queue = refl })
accepts_again s v (registered i) e =
    let t : Server = record s { main = joining; status = set_status i running s.status } in
    let step : Step s t = start i e refl in
    extend step tt (
      drain (length s.to_join) t s.to_join refl
        (record { consistent = Step-IsConsistent s t step v; at_test = refl; queue = refl }))
accepts_again s v (popped i) e = join_then_drain s s.to_join (join_one s i v e)
accepts_again s v (joined i) e = join_then_drain s s.to_join (delete_joined s i v e)

Steps-append : {s t u : Server} → Steps s t → Steps t u → Steps s u
Steps-append p here = p
Steps-append p (then_step q step) = then_step (Steps-append p q) step

Steps-OwnSteps : {s t : Server} → OwnSteps s t → Steps s t
Steps-OwnSteps own_here = here
Steps-OwnSteps (then_own p step own) = then_step (Steps-OwnSteps p) step

-- How many steps the main thread takes from here to its test of the loop or to `accept`.
abbrev rank : Main → ℕ
rank accepting = 0
rank joining = 1
rank failed = 0
rank (registered i) = 2
rank (popped i) = 3
rank (joined i) = 2

-- What the main thread has to do before it accepts.
abbrev load : Server → ℕ
load s = 3 * length s.to_join + rank s.main

-- The return of another thread is no move of the main thread.
abbrev move : {s t : Server} → Step s t → ℕ
move (return _ _ _) = 0
move _ = 1

abbrev pub moves : {s t : Server} → OwnSteps s t → ℕ
moves own_here = 0
moves (then_own p step own) = moves p + move step

load-step : {s t : Server} (step : Step s t) → IsOwn step → move step + load t ≤ load s
load-step {s} {t} (accept m e) own = absurd own
load-step {s} {t} (leave i r e) own = absurd own
load-step {s} {t} (return i l e) own = omega (arith, ap load e)
load-step {s} {t} (start i m e) own = omega (arith, ap load e, ap rank m)
load-step {s} {t} (stop m q e) own = omega (arith, ap load e, ap rank m)
load-step {s} {t} (pop l i m q e) own =
    omega (arith, ap load e, ap rank m, ap length q, length-append l (i ∷ []))
load-step {s} {t} (join i k m one d e) own = omega (arith, ap load e, ap rank m)
load-step {s} {t} (join_missing i m none e) own = omega (arith, ap load e, ap rank m)
load-step {s} {t} (delete i k m one e) own = omega (arith, ap load e, ap rank m)
load-step {s} {t} (delete_missing i m none e) own = omega (arith, ap load e, ap rank m)

load-moves : {s t : Server} (p : OwnSteps s t) → moves p + load t ≤ load s
load-moves own_here = omega arith
load-moves (then_own p step own) = omega (arith, load-moves p, load-step step own)

-- Whatever has happened, and in whatever order the threads of the server go on while no connection
-- arrives and none ends, the main thread takes at most three steps for each thread that is to be
-- joined and three more, and from everywhere on the way it comes back to accepting connections by
-- such steps: no thread that it waits for is missing, and it waits for none whose connection is open.
pub Steps-accepting :
    (s u : Server) (past : Steps new_server s) (p : OwnSteps s u)
    → (moves p ≤ 3 * length s.to_join + 3) × ((t : Server) × OwnSteps u t × (t.main ≡ accepting))
Steps-accepting s u past p =
    let path = Steps-append past (Steps-OwnSteps p) in
    let r = accepts_again u (Steps-IsConsistent u path) u.main refl in
    (omega (arith, load-moves p, rank-le s.main), (r.target, r.path, r.holds))
  where
    rank-le : (m : Main) → rank m ≤ 3
    rank-le accepting = omega arith
    rank-le joining = omega arith
    rank-le failed = omega arith
    rank-le (registered i) = omega arith
    rank-le (popped i) = omega arith
    rank-le (joined i) = omega arith

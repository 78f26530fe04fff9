-- ===== src/Tests/Machine.antt =====
-- A machine that keeps sysctls for the host and for each node, as a kernel for the tests.
use minitopo.Base.{
  Char, code, String, ◌==◌, eq_iff, eq_refl, ◌≡◌, ◌≢◌, refl, ap, ◌∙◌, Bool, true, false, List, [],
  ◌∷◌, ◌++◌, eqb,
}
use minitopo.Base.{Option, none, some, arith, if◌then◌else◌, inl, inr, Bool-cases}
use minitopo.Errors.{ok}
use minitopo.Text.{◌<>◌, concat, has}
use minitopo.Text.Split.{
  split_at_most, split_at_most-append, split_at_most-zero, has-append, append-empty,
}
use minitopo.Network.{Action, Env, to, everywhere}
use minitopo.Experiment.Sysctl.{read_sysctl_cmd, cmd_write_sysctl, but_last}
use minitopo.Experiment.Kernel.{Kernel, IsKey, action, answer, but_last-append}

-- What follows a prefix.
after_prefix : String → String → Option String
after_prefix String.[] s = some s
after_prefix (String.◌∷◌ d t) String.[] = none
after_prefix (String.◌∷◌ d t) (String.◌∷◌ c s) =
    let rest = after_prefix t s in if eqb (code c) (code d) then rest else none

abbrev but_first : String → String
but_first String.[] = ""
but_first (String.◌∷◌ c s) = s

-- `key="value"` sets a sysctl.
assignment : List String → Option (String × String)
unfolding but_last
assignment (key ∷ value ∷ []) = some (key, but_last (but_first value))
assignment _ = none

words_written : Option String → Option (String × String)
unfolding assignment split_at_most has
words_written none = none
words_written (some rest) = if has b'=' rest then assignment (split_at_most b'=' 1 rest) else none

written : String → Option (String × String)
unfolding words_written after_prefix
written cmd = words_written (after_prefix "sysctl " cmd)

set : Option (String × String) → String → String → String
set none key old = old
set (some (k, v)) key old = if k == key then v else old

-- The settings after one more action.
step : Action → (Option String → String → String) → Option String → String → String
unfolding written set
step (everywhere cmd) s none key = set (written cmd) key (s none key)
step (to node cmd) s (some n) key =
    if node == n then set (written cmd) key (s (some n) key) else s (some n) key
step _ s place key = s place key

steps : List Action → (Option String → String → String) → Option String → String → String
unfolding step
steps [] s = s
steps (a ∷ l) s = steps l (step a s)

steps-append :
    (l : List Action) (a : Action) (s : Option String → String → String)
    → steps (l ++ a ∷ []) s ≡ step a (steps l s)
unfolding steps
steps-append [] a s = refl
steps-append (b ∷ l) a s = steps-append l a (step b s)

-- At first every sysctl is 0.
setting : List Action → Option String → String → String
unfolding steps
setting done = steps done (λ place key. "0")

reply : Option String → (String → String) → String
unfolding has concat
reply none values = ""
reply (some rest) values = if has b'=' rest then "" else answer rest (values rest)

pub machine : Env
unfolding reply after_prefix
machine = record {
  node_cmd = λ done who cmd. reply (after_prefix "sysctl " cmd) (setting done (some who));
  shell = λ done cmd. (reply (after_prefix "sysctl " cmd) (setting done none), "");
  node_named = λ names who. ok who;
  node_names = λ hosts switches. hosts ++ switches;
  interface_names = λ links who. "eth0" ∷ "eth1" ∷ [];
  mac = λ who intf. "00:00:00:00:00:01";
}

rest_of_read : (key : String) → after_prefix "sysctl " (read_sysctl_cmd key) ≡ some key
unfolding after_prefix read_sysctl_cmd concat ◌<>◌
rest_of_read key = ap some (append-empty key)

abbrev quoted : String → String
quoted v = "=\"" <> v <> "\""

rest_of_write :
    (key v : String) → after_prefix "sysctl " (cmd_write_sysctl key v) ≡ some (key <> quoted v)
unfolding after_prefix cmd_write_sysctl read_sysctl_cmd concat ◌<>◌
rest_of_write key v = ap (λ k. some (k <> quoted v)) (append-empty key)

reply-read :
    (key : String) (values : String → String)
    → IsKey key
    → reply (after_prefix "sysctl " (read_sysctl_cmd key)) values ≡ answer key (values key)
unfolding reply
reply-read key values h =
    ap (λ r. reply r values) (rest_of_read key)
    ∙ ap (λ b. if b then "" else answer key (values key)) h.1

written-read : (key : String) → IsKey key → written (read_sysctl_cmd key) ≡ none
unfolding written words_written
written-read key h =
    ap words_written (rest_of_read key)
    ∙ ap (λ b. if b then assignment (split_at_most b'=' 1 key) else none) h.1

abbrev equals : Char
equals = Prim.Native.Char.char 61 tt

written-write : (key v : String) → IsKey key → written (cmd_write_sysctl key v) ≡ some (key, v)
unfolding written words_written assignment ◌<>◌
written-write key v h =
    ap words_written (rest_of_write key v)
    ∙ ap (λ b. if b then assignment (split_at_most b'=' 1 (key <> quoted v)) else none)
        (has-append b'=' key (quoted v) (unfold has in refl))
    ∙ ap assignment (
        split_at_most-append b'=' 0 key equals ("\"" <> v <> "\"") refl h.1
        ∙ ap (λ ws. key ∷ ws) (split_at_most-zero b'=' ("\"" <> v <> "\"")))
    ∙ ap (λ u. some (key, u)) (but_last-append v (Prim.Native.Char.char 34 tt))

setting-step :
    (done : List Action) (a : Action) (place : Option String) (key : String)
    → setting (done ++ a ∷ []) place key ≡ step a (setting done) place key
unfolding setting
setting-step done a place key = ap (λ s. s place key) (steps-append done a _)

set-same : (k v old : String) → set (some (k, v)) k old ≡ v
unfolding set
set-same k v old = ap (λ b. if b then v else old) (eq_refl k)

set-other : (k j v old : String) → k ≢ j → set (some (k, v)) j old ≡ old
unfolding set
set-other k j v old ne = ground (arith, eq_iff k j)

if-same : (b : Bool) (x y : String) → x ≡ y → (if b then x else y) ≡ y
if-same true x y e = e
if-same false x y e = refl

step-read :
    (s : Option String → String → String) (place place' : Option String) (key key' : String)
    → IsKey key
    → step (action place (read_sysctl_cmd key)) s place' key' ≡ s place' key'
unfolding step set
step-read s none none key key' h = ap (λ w. set w key' (s none key')) (written-read key h)
step-read s none (some m) key key' h = refl
step-read s (some n) none key key' h = refl
step-read s (some n) (some m) key key' h =
    if-same (n == m) _ _ (ap (λ w. set w key' (s (some m) key')) (written-read key h))

step-write :
    (s : Option String → String → String) (place : Option String) (key v : String)
    → IsKey key
    → step (action place (cmd_write_sysctl key v)) s place key ≡ v
unfolding step set
step-write s none key v h =
    ap (λ w. set w key (s none key)) (written-write key v h) ∙ set-same key v _
step-write s (some n) key v h =
    ap
      (λ b.
        if b then set (written (cmd_write_sysctl key v)) key (s (some n) key) else s (some n) key)
      (eq_refl n)
    ∙ ap (λ w. set w key (s (some n) key)) (written-write key v h)
    ∙ set-same key v _

step-other_key :
    (s : Option String → String → String) (place place' : Option String) (key key' v : String)
    → IsKey key
    → key ≢ key'
    → step (action place (cmd_write_sysctl key v)) s place' key' ≡ s place' key'
unfolding step set
step-other_key s none none key key' v h ne =
    ap (λ w. set w key' (s none key')) (written-write key v h) ∙ set-other key key' v _ ne
step-other_key s none (some m) key key' v h ne = refl
step-other_key s (some n) none key key' v h ne = refl
step-other_key s (some n) (some m) key key' v h ne =
    if-same (n == m) _ _
      (ap (λ w. set w key' (s (some m) key')) (written-write key v h) ∙ set-other key key' v _ ne)

step-other_place :
    (s : Option String → String → String) (place place' : Option String) (key key' v : String)
    → place ≢ place'
    → step (action place (cmd_write_sysctl key v)) s place' key' ≡ s place' key'
unfolding step set
step-other_place s none none key key' v ne = absurd (ne refl)
step-other_place s none (some m) key key' v ne = refl
step-other_place s (some n) none key key' v ne = refl
step-other_place s (some n) (some m) key key' v ne = elim (Bool-cases (n == m)) [
  | inl e ↦ absurd (ne (ap some ((eq_iff n m).0 e)))
  | inr e ↦ rw e refl
]

pub machine-Kernel : Kernel machine
unfolding machine
machine-Kernel = record {
  setting = setting;
  reads_host = λ done key h. ap (λ s. (s, "")) (reply-read key (setting done none) h);
  reads_node = λ done node key h. reply-read key (setting done (some node)) h;
  reading_keeps = λ done place place' key key' h.
      setting-step done _ place' key' ∙ step-read (setting done) place place' key key' h;
  writes = λ done earlier place key h.
      setting-step done _ place key ∙ step-write (setting done) place key _ h;
  other_key = λ done place place' key key' value h ne.
      setting-step done _ place' key'
      ∙ step-other_key (setting done) place place' key key' value h ne;
  other_place = λ done place place' key key' value h ne.
      setting-step done _ place' key'
      ∙ step-other_place (setting done) place place' key key' value ne;
}

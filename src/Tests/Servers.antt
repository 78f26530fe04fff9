-- ===== src/Tests/Servers.antt =====
-- Runs of the servers and the clients under utils.
use Prim.Native.Nat.{ℕ}
use minitopo.Base.{
  ◌+◌, ◌-◌, ◌≡◌, refl, true, false, List, [], ◌∷◌, ◌++◌, none, arith, inl, inr, if◌then◌else◌, ltb,
}
use minitopo.Base.Int.{pos}
use minitopo.Errors.{ok}
use minitopo.Text.{◌<>◌, has, join, concat}
use minitopo.Text.Slices.{len, drop}
use minitopo.Text.Number.{show}
use minitopo.Messages.{
  Chance, arrived, broken, new_handling, new_asking, run, ask, string_generator,
}
use minitopo.Messages.Balance.{IsBalanced, run-new-IsBalanced}
use minitopo.Messages.Parts.{IsCut, all_arrivals}
use minitopo.Messages.Rounds.{Delivered, texts}
use minitopo.Messages.Exchange.{Complete, ask-run-Complete}
use minitopo.Threads.{
  Server, Steps, here, then_step, new_server, put_key, accept, start, leave, pop, accepting, popped,
  running, leaving, unborn, set_status,
}
use minitopo.Threads.Safety.{IsConsistent, Steps-IsConsistent}
use minitopo.Threads.{ended, return}
use minitopo.Threads.Progress.{OwnSteps, own_here, then_own, moves, Steps-accepting}
use minitopo.Base.{◌*◌, ◌+◌, ◌≤◌, length}
use minitopo.SiriServer.{new_connection, ends_line, receive, serve, response}
use minitopo.SiriServer.Requests.{Request, line, request_text}
use minitopo.SiriServer.Headers.{IsSendable}
use minitopo.SiriServer.Replies.{IsIdle, answered, receive-request}
use minitopo.SiriServer.Starving.{serve-two_requests}
use minitopo.SiriServer.Sessions.{replies, serve-requests, len-response}

abbrev counting : Chance
counting = record {
  Time = ℕ;
  Delay = ℕ;
  now = λ k. k;
  minus = λ stop start. stop - start;
  choice = λ k chars. Prim.Native.Char.char 48 tt;
}

run-new-IsBalanced_example :
    IsBalanced counting 3 5
      (run counting (pos 3) (arrived "12" ∷ arrived "345" ∷ broken ∷ []) (new_handling counting)).0
unfolding len
run-new-IsBalanced_example =
    run-new-IsBalanced counting 3 (arrived "12" ∷ arrived "345" ∷ broken ∷ [])

abbrev in_parts : List (List Prim.Native.String.String)
in_parts = ("0" ∷ "00" ∷ []) ∷ ("000" ∷ []) ∷ []

part-IsCut : IsCut "000" ("0" ∷ "00" ∷ [])
unfolding concat len
part-IsCut = record { whole = refl; solid = (omega arith, (omega arith, tt)) }

whole-IsCut : IsCut "000" ("000" ∷ [])
unfolding concat len
whole-IsCut = record { whole = refl; solid = (omega arith, tt) }

asked_twice :
    Delivered
      (texts (ask counting false (pos 3) 2 (all_arrivals in_parts) (new_asking counting)).0.done)
      in_parts
unfolding ask new_asking string_generator
asked_twice = (part-IsCut, (whole-IsCut, tt))

answered_twice :
    Delivered
      (texts (run counting (pos 3) (all_arrivals in_parts) (new_handling counting)).0.actions)
      in_parts
unfolding run new_handling string_generator len drop
answered_twice = (part-IsCut, (whole-IsCut, tt))

ask-run-Complete_example :
    Complete counting counting 0 2
      (ask counting false (pos 3) 2 (all_arrivals in_parts) (new_asking counting))
      (run counting (pos 3) (all_arrivals in_parts) (new_handling counting))
ask-run-Complete_example =
    ask-run-Complete counting counting 3 2 in_parts in_parts (omega arith) asked_twice
      answered_twice

-- One connection is accepted, and has ended when the main thread looks at the list.
abbrev one_popped : Server
one_popped = record {
  threads = 0 ∷ [];
  to_join = [];
  conn_id = 1;
  main = popped 0;
  status = set_status 0 leaving (set_status 0 running (λ i. unborn));
}

one_connection : Steps new_server one_popped
unfolding new_server put_key
one_connection =
    then_step
      (then_step (then_step (then_step here (accept refl refl)) (start 0 refl refl))
        (leave 0 refl refl))
      (pop [] 0 refl refl refl)

Steps-IsConsistent_example : IsConsistent one_popped
Steps-IsConsistent_example = Steps-IsConsistent one_popped one_connection

-- The thread that is waited for has returned.
abbrev one_ended : Server
one_ended = record one_popped { status = set_status 0 ended one_popped.status }

returned : OwnSteps one_popped one_ended
returned = then_own own_here (return 0 refl refl) tt

Steps-accepting_example :
    (moves returned ≤ 3 * length one_popped.to_join + 3)
    × ((t : Server) × OwnSteps one_ended t × (t.main ≡ accepting))
Steps-accepting_example = Steps-accepting one_popped one_ended one_connection returned

abbrev first_request : Request
first_request = record {
  message_id = pos 1;
  req_size = pos 40;
  res_size = pos 20;
  waiting_time = 0;
  time = pos 1234;
  mac = "aa:bb";
  delays = pos 7 ∷ [];
  filling = "00000000000000";
}

abbrev second_request : Request
second_request = record first_request { message_id = pos 2 }

first-IsSendable : IsSendable first_request
unfolding has ◌<>◌ join show len
first-IsSendable = record { mac_free = refl; filling_free = refl; one_line = refl; sized = refl }

second-IsSendable : IsSendable second_request
unfolding has ◌<>◌ join show len
second-IsSendable = record { mac_free = refl; filling_free = refl; one_line = refl; sized = refl }

new-IsIdle : IsIdle new_connection
unfolding new_connection
new-IsIdle = record { first = refl; no_buffer = refl; no_next = refl }

new-mac : new_connection.mac ≡ none
unfolding new_connection
new-mac = refl

receive-request_example :
    receive (line first_request <> "\n" <> "2&40") new_connection
    ≡ (ok true, answered first_request "2&40" new_connection)
receive-request_example =
    receive-request first_request "2&40" new_connection first-IsSendable (inl new-mac) new-IsIdle
      (inr (unfold ends_line in refl))

serve-two_requests_example :
    (serve
      ((request_text first_request <> request_text second_request) ∷ "3&40" ∷ [])
      new_connection).1.actions
    ≡ new_connection.actions
serve-two_requests_example =
    serve-two_requests first_request second_request ("3&40" ∷ []) new_connection first-IsSendable
      second-IsSendable new-IsIdle

serve-requests_example :
    let end =
      serve (request_text first_request ∷ request_text second_request ∷ []) new_connection in
    (end.0 ≡ ok true)
    × (end.1.actions ≡ new_connection.actions ++ replies (first_request ∷ second_request ∷ []))
    × (end.1.buffer_data ≡ "")
serve-requests_example =
    serve-requests "aa:bb" (first_request ∷ second_request ∷ []) new_connection
      ((first-IsSendable, refl), ((second-IsSendable, refl), tt)) (inl new-mac) new-IsIdle

len-response_example :
    len (response (pos 12) (pos 20))
    ≡ (if ltb 20 (len (show (pos 12)) + 2) then len (show (pos 12)) + 2 else 20)
len-response_example = len-response (pos 12) 20

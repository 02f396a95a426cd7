-- ===== src/Examples/Threads.antt =====
-- Examples for the loops of the threads.
use Prim.Native.String.{String}
use rn_praktikum.Base.{
  ℕ, ◌≡◌, refl, ◌≢◌, All, arith, inl, List, [], ◌∷◌, ◌++◌, some, Bool, true, false, codes,
  replicate,
}
use rn_praktikum.Names.{eot}
use rn_praktikum.Queue.{MessageSend, single}
use rn_praktikum.Connections.{Net, sender_loop}
use rn_praktikum.Connections.Drain.{history, no_socket, IsShort, sender_loop_drains}
use rn_praktikum.Tcp.Stream.{Accepts}
use rn_praktikum.Server.{Event, has_in, has_err, has_hup, handle_events}
use rn_praktikum.Server.Idle.{IsGone, has_fd, handle_events_gone}
use rn_praktikum.Tcp.Sockets.{Call, bind, Tells, connect_to, listen_on, sockets_tell}
use rn_praktikum.Examples.{quiet_net, small_node, noise}

-- EPOLLIN and EPOLLHUP for a connection that accept returned.
abbrev hung_up : Event
hung_up = record {
  events = 17;
  fd = 7;
  accepted = 0;
  read = λ i. some [];
  behind = [];
  junk = λ n. noise;
  junk' = λ n. noise;
}

hung_up-IsGone : IsGone 3 hung_up
unfolding has_in has_err has_hup
hung_up-IsGone = inl refl

unlisted : has_fd 7 (small_node 1).net.cons ≡ false
unfolding has_fd
unlisted = refl

handle_events_gone_example :
    handle_events 3 (replicate 4 hung_up) (small_node 1) ≡ some (small_node 1)
handle_events_gone_example = handle_events_gone 3 hung_up (small_node 1) 4 hung_up-IsGone unlisted

abbrev queued : String → ℕ → MessageSend
queued text len = record { dest_addr = 5; msg = codes text; msg_len = len; msg_counter = single }

abbrev queue : List MessageSend
queue = queued "one" 3 ∷ queued "" 0 ∷ queued "two" 3 ∷ []

-- Every socket takes one byte at a time.
takes : (i fd : ℕ) → fd ≢ no_socket → Accepts (λ j k. 1)
takes i fd h j k some_bytes = (omega arith, omega arith)

short : All IsShort queue
short = (omega arith, (omega arith, (omega arith, tt)))

sender_loop_drains_example :
    (net' : Net) × (sender_loop (λ a p. 8) (λ i fd j k. 1) 3 3 queue quiet_net ≡ some ([], net'))
    × (history net'.sent ≡ (codes "one" ++ eot ∷ []) ∷ (codes "two" ++ eot ∷ []) ∷ [])
sender_loop_drains_example =
    sender_loop_drains (λ a p. 8) (λ a p e. omega arith) 3 (λ i fd j k. 1) queue quiet_net takes
      short tt

-- bind fails, and every other call succeeds.
abbrev no_bind : Call → Bool
no_bind (bind fd addr) = false
no_bind c = true

sockets_tell_example :
    Tells 8 no_bind (connect_to 8 no_bind 0x0100_000a 5000)
    × Tells 8 no_bind (listen_on 8 no_bind 0x0100_000a 5000)
sockets_tell_example = sockets_tell 8 no_bind 0x0100_000a 5000

-- ===== src/Host/Steps.antt =====
-- The steps of a host: what its four threads do to it, one function at a time, from the host with
-- which main starts the first of them on. The login is a step of main's own thread, which then runs
-- the user interface.
use rn_praktikum.Base.{
  ℕ, ◌≤◌, suc, ◌≡◌, refl, List, [], ◌∷◌, ◌++◌, Option, none, some, ◌==◌, ◌||◌, not, arith, length,
  ltb, leb, get_or, ap, Bool-cases, Option-cases, inl, inr, false, ◌+◌,
}
use mathlib.Core.Path.{subst}
use mathlib.Core.Option.{some-injective, none-ne-some}
use rn_praktikum.Queue.{MessageUi, MessageSend, pop, pop_ui, pop_send}
use rn_praktikum.Table.Start.{init_table-IsValid}
use rn_praktikum.Table.Refine.{view}
use rn_praktikum.Tcp.{read_tcp, send_tcp}
use rn_praktikum.Connections.{Net, get_con, sender_round, int_to_u64}
use rn_praktikum.Connections.Cache.{IsCache, distinct, get_con-Serves}
use rn_praktikum.Node.{Node}
use rn_praktikum.Heartbeat.{start_round, end_round}
use rn_praktikum.Protocol.{do_chat, do_login, do_logout}
use rn_praktikum.Server.{Event, receive, register, handle_event, has_in, has_err, has_hup}
use rn_praktikum.Main.{
  Opt, Returns, Returns-if, Returns-and_then, Returns-tt, Args, returns, undefined, parse_args,
  start_node, login_target, address_bytes, main,
}
use rn_praktikum.Routes.{Cause, no_cause, no_answer, arrival, gains, Loses, Evolves-Loses}
use rn_praktikum.Host.{
  IsHost, Refines, Refines-refl, Refines-trans, Yields, Yields-bind, Yields-if, Yields-some,
  net-Refines, ui-Refines, send-Refines,
}
use rn_praktikum.Host.Tables.{remove_con_fd-IsCache}
use rn_praktikum.Host.Messages.{
  handle_msg-Yields, do_chat-Yields, do_login-Yields, do_logout-Refines,
}
use rn_praktikum.Host.Beats.{start_round-Refines, end_round-Yields}

-- A step of the server's thread, of the sender's, of the heartbeat's, or of the user interface.
pub data Step (n : Node) : Node → Type 0 where
  event :
      {n' : Node} (server_socket : ℕ) (e : Event)
      → handle_event server_socket e n ≡ some n'
      → Step n n'
  listen : (server_socket : ℕ) → Step n (register server_socket n)
  transmit :
      {q : List MessageSend} {net : Net} (dial : ℕ → ℕ → ℕ) (write : ℕ → ℕ → ℕ → ℕ) (last : ℕ)
      → sender_round dial write last n.send n.net ≡ some (q, net)
      → Step n (record n { send = q; net = net })
  login :
      {n' : Node} (inet_aton : List ℕ → ℕ) (a : Args)
      → login_target inet_aton a n ≡ returns n'
      → Step n n'
  beat : Step n (start_round n)
  check : {n' : Node} → end_round n ≡ some n' → Step n n'
  show :
      (m : MessageUi) (rest : List MessageUi)
      → pop_ui n.ui ≡ some (m, rest)
      → Step n (record n { ui = rest })
  chat : {n' : Node} (target text : List ℕ) → do_chat target text n ≡ some n' → Step n n'
  leave : Step n (do_logout n)

-- Any number of steps, in any order.
pub data Reaches (n : Node) : Node → Type 0 where
  here : Reaches n n
  after : {m k : Node} → Reaches n m → Step m k → Reaches n k

receive-Yields : (e : Event) (n : Node) → Yields arrival n (receive e n)
unfolding receive
receive-Yields e n =
    Yields-bind arrival n (read_tcp e.read) _
      (λ bytes. handle_msg-Yields e.junk e.junk' (length bytes) (bytes ++ e.behind) n)

register-Refines : {k : Cause} (fd : ℕ) (n : Node) → Refines k n (register fd n)
unfolding register
register-Refines fd n = net-Refines n _ (λ c. c)

handle_event-Yields :
    (server_socket : ℕ) (e : Event) (n : Node) → Yields arrival n (handle_event server_socket e n)
unfolding handle_event register
handle_event-Yields server_socket e n =
    Yields-if arrival n (has_err e.events || (has_hup e.events || not (has_in e.events))) _ _
      (net-Refines n _ (remove_con_fd-IsCache (int_to_u64 e.fd) n.net))
      (Yields-if arrival n (e.fd == server_socket) _ _ (register-Refines e.accepted n)
        (receive-Yields e n))

-- A round of sender_loop that comes back never makes the queue longer, and keeps the connections
-- apart.
Keeps : List MessageSend → Net → Option (List MessageSend × Net) → Type 0
Keeps q net none = Unit
Keeps q net (some (q', net')) = (length q' ≤ length q) × (IsCache net → IsCache net')

sender_round-Keeps :
    (dial : ℕ → ℕ → ℕ) (write : ℕ → ℕ → ℕ → ℕ) (last : ℕ) (q : List MessageSend) (net : Net)
    → Keeps q net (sender_round dial write last q net)
unfolding sender_round pop_send pop Keeps
sender_round-Keeps dial write last [] net = (omega arith, λ c. c)
sender_round-Keeps dial write last (m ∷ q) net = elim (Bool-cases (ltb 0 m.msg_len)) [
  | inr e ↦ rw (e, sender_round) (omega arith, λ c. c)
  | inl e ↦
      let con = (get_con dial m.dest_addr net).1 in
      elim (Option-cases (send_tcp (write con.socket_fd) (length m.msg + 1) last m.msg)) [
        | inl w ↦ rw (e, w, sender_round) tt
        | inr (wire, w) ↦
            rw (e, w, sender_round) (omega arith, λ c. (get_con-Serves dial m.dest_addr net c).1)
      ]
]

transmit-Refines :
    {k : Cause} {q : List MessageSend} {net : Net} (dial : ℕ → ℕ → ℕ) (write : ℕ → ℕ → ℕ → ℕ)
    (last : ℕ) (n : Node)
    → sender_round dial write last n.send n.net ≡ some (q, net)
    → Refines k n (record n { send = q; net = net })
unfolding Keeps
transmit-Refines {q = q} {net = net} dial write last n h =
    let (shorter, keeps) =
      subst (Keeps n.send n.net) h (sender_round-Keeps dial write last n.send n.net) in
    let sent = record n { send = q } in
    Refines-trans (send-Refines n q (λ b. omega arith)) (net-Refines sent net keeps)

login-Refines :
    (inet_aton : List ℕ → ℕ) (a : Args) (n n' : Node)
    → login_target inet_aton a n ≡ returns n'
    → Refines no_cause n n'
unfolding login_target
login-Refines inet_aton a n n' h =
    let joined =
      do_login a.chat_name (address_bytes (inet_aton a.local_host)) a.local_port
        (inet_aton a.target_host) a.target_port n in
    subst (Returns (Refines no_cause n)) h (
      Returns-if (Refines no_cause n) (get_or a.target_host 0 0 == 0) _ _ (λ e. Refines-refl n)
        (λ e. sent joined (
          do_login-Yields no_cause a.chat_name (address_bytes (inet_aton a.local_host)) a.local_port
            (inet_aton a.target_host) a.target_port n)))
  where
    sent :
        (o : Option Node)
        → Yields no_cause n o
        → Returns (Refines no_cause n) (elim o [ none ↦ undefined | some n' ↦ returns n' ])
    sent none y = tt
    sent (some n') y = y

length-pop_ui :
    (q : List MessageUi) (m : MessageUi) (rest : List MessageUi)
    → pop_ui q ≡ some (m, rest)
    → length q ≡ suc (length rest)
unfolding pop_ui pop
length-pop_ui [] m rest e = absurd (none-ne-some _ e)
length-pop_ui (x ∷ q) m rest e =
    ap (λ (p : MessageUi × List MessageUi). suc (length p.1)) (some-injective _ _ e)

show-Refines :
    {k : Cause} (n : Node) (m : MessageUi) (rest : List MessageUi)
    → pop_ui n.ui ≡ some (m, rest)
    → Refines k n (record n { ui = rest })
show-Refines n m rest e = ui-Refines n rest (λ h. omega (arith, length-pop_ui n.ui m rest e))

-- The cause of a step.
abbrev pub cause : {n n' : Node} → Step n n' → Cause
cause (event socket e h) = arrival
cause (listen socket) = no_cause
cause (transmit dial write last h) = no_cause
cause (login inet_aton a h) = no_cause
cause beat = no_cause
cause (check h) = no_answer
cause (show m rest h) = no_cause
cause (chat target text h) = no_cause
cause leave = no_cause

Step-Refines : {n n' : Node} (s : Step n n') → Refines (cause s) n n'
Step-Refines (event socket e h) =
    Yields-some arrival _ _ (handle_event socket e _) (handle_event-Yields socket e _) h
Step-Refines (listen socket) = register-Refines socket _
Step-Refines (transmit dial write last h) = transmit-Refines dial write last _ h
Step-Refines (login inet_aton a h) = login-Refines inet_aton a _ _ h
Step-Refines beat = start_round-Refines _
Step-Refines (check h) = Yields-some no_answer _ _ (end_round _) (end_round-Yields _) h
Step-Refines (show m rest h) = show-Refines _ m rest h
Step-Refines (chat target text h) =
    Yields-some no_cause _ _ (do_chat target text _) (do_chat-Yields no_cause target text _) h
Step-Refines leave = do_logout-Refines _

-- In a good host only the server's events, which may be messages, change a route or add one: any
-- other step leaves the entry that the search finds for a name as it is, or removes it, and of the
-- other steps only the end of a round of the heartbeat removes one. So neither the sender, nor the
-- login, nor what is typed, nor the exit, nor a signal to the neighbours changes what the search finds
-- for any name.
pub Step-Loses :
    (n n' : Node) (s : Step n n')
    → IsHost n
    → gains (cause s) ≡ false
    → (x : List ℕ) → Loses (cause s) (view n.table x) (view n'.table x)
Step-Loses n n' s h g x = Evolves-Loses g ((Step-Refines s).evolves h) x

Reaches-keeps : {n n' : Node} → Reaches n n' → IsHost n → IsHost n'
Reaches-keeps here h = h
Reaches-keeps (after r s) h = (Step-Refines s).host (Reaches-keeps r h)

pub start_node-IsHost :
    (name : List ℕ) (adress port : ℕ) (junk junk' : List ℕ)
    → IsHost (start_node name adress port junk junk')
unfolding start_node distinct
start_node-IsHost name adress port junk junk' = record {
  table_valid = init_table-IsValid name adress port junk junk';
  ui_fits = omega arith;
  send_fits = omega arith;
  cache = refl;
}

main-IsHost :
    (inet_addr : List ℕ → ℕ) (port port' : ℕ) (junk junk' : List ℕ) (opts : List Opt)
    → Returns IsHost (main inet_addr port port' junk junk' opts)
unfolding main
main-IsHost inet_addr port port' junk junk' opts =
    Returns-and_then (λ a. Unit) IsHost (parse_args port port' opts) _
      (Returns-tt (parse_args port port' opts))
      (λ a h.
        Returns-if IsHost (leb 32 (length a.chat_name)) _ _ (λ e. tt)
          (λ e. start_node-IsHost a.chat_name (inet_addr a.local_host) a.local_port junk junk'))

-- From the host with which main starts the first thread, whatever the arguments were, every host
-- that steps of the threads reach, the login among them, in whatever order, is good: in the table
-- at most ten entries, in the first ten places, one to a name, in step with freeEntries; at most
-- 100 messages in either queue; and no two connections to the same address.
pub Reaches-IsHost :
    (inet_addr : List ℕ → ℕ) (port port' : ℕ) (junk junk' : List ℕ) (opts : List Opt) (n n' : Node)
    → main inet_addr port port' junk junk' opts ≡ returns n
    → Reaches n n'
    → IsHost n'
Reaches-IsHost inet_addr port port' junk junk' opts n n' e r =
    Reaches-keeps r (subst (Returns IsHost) e (main-IsHost inet_addr port port' junk junk' opts))

-- ===== src/Host.antt =====
-- What holds of a whole host between any two of its functions, and what a function may do to its
-- routes.
pub mod Tables
pub mod Updates
pub mod Messages
pub mod Beats
pub mod Steps
use mathlib.Core.Option.{some-injective, none-ne-some}
use mathlib.Core.Path.{subst}
use rn_praktikum.Base.{
  Option, none, some, ◌>>=◌, ℕ, ◌≤◌, ◌<◌, ◌≡◌, refl, ap, inl, inr, List, [], ◌∷◌, ◌++◌, Bool, true,
  false, if◌then◌else◌, ltb, arith, length, length-append, Bool-cases, ltb→lt,
}
use rn_praktikum.Queue.{
  MsgCounter, MessageUi, MessageSend, max_queue_size, push, push_ui, push_send,
}
use rn_praktikum.Queue.Fifo.{enqueue, push-enqueue}
use rn_praktikum.Table.{Table}
use rn_praktikum.Table.Invariant.{IsValid}
use rn_praktikum.Table.Refine.{view}
use rn_praktikum.Connections.{Net}
use rn_praktikum.Connections.Cache.{IsCache}
use rn_praktikum.Node.{Node, User}
use rn_praktikum.Routes.{Cause, Evolves, start, Evolves-trans}

-- The table is valid, neither queue holds more than 100 messages, and no two connections have the
-- same address.
pub record IsHost (n : Node) : Type 0 where
  pub table_valid : IsValid n.table
  pub ui_fits : length n.ui ≤ max_queue_size
  pub send_fits : length n.send ≤ max_queue_size
  pub cache : IsCache n.net

-- From a good host, a function leads to a good one, whose routes come of the old ones by changes
-- that the cause allows.
pub record Refines (k : Cause) (n n' : Node) : Type 0 where
  pub host : IsHost n → IsHost n'
  pub evolves : IsHost n → Evolves k (view n.table) (view n'.table)

pub Refines-refl : {k : Cause} (n : Node) → Refines k n n
Refines-refl n = record { host = λ h. h; evolves = λ h. start }

pub Refines-trans : {k : Cause} {n m l : Node} → Refines k n m → Refines k m l → Refines k n l
Refines-trans p q = record {
  host = λ h. q.host (p.host h);
  evolves = λ h. Evolves-trans (p.evolves h) (q.evolves (p.host h));
}

pub length-push {ℓ} :
    {A : Type ℓ} (q : List A) (x : A)
    → length q ≤ max_queue_size
    → length (push q x).0 ≤ max_queue_size
length-push q x h = rw (push-enqueue q x) (elim (Bool-cases (ltb (length q) max_queue_size)) [
  | inl e ↦ rw e (omega (arith, length-append q (x ∷ []), ltb→lt _ _ e))
  | inr e ↦ rw e h
])

-- The changes that leave the table alone.
pub ui-Refines :
    {k : Cause} (n : Node) (q : List MessageUi)
    → (length n.ui ≤ max_queue_size → length q ≤ max_queue_size)
    → Refines k n (record n { ui = q })
ui-Refines n q fits = record {
  host = λ h. record {
    table_valid = h.table_valid;
    ui_fits = fits h.ui_fits;
    send_fits = h.send_fits;
    cache = h.cache;
  };
  evolves = λ h. start;
}

pub send-Refines :
    {k : Cause} (n : Node) (q : List MessageSend)
    → (length n.send ≤ max_queue_size → length q ≤ max_queue_size)
    → Refines k n (record n { send = q })
send-Refines n q fits = record {
  host = λ h. record {
    table_valid = h.table_valid;
    ui_fits = h.ui_fits;
    send_fits = fits h.send_fits;
    cache = h.cache;
  };
  evolves = λ h. start;
}

pub net-Refines :
    {k : Cause} (n : Node) (net : Net)
    → (IsCache n.net → IsCache net)
    → Refines k n (record n { net = net })
net-Refines n net keeps = record {
  host = λ h. record {
    table_valid = h.table_valid;
    ui_fits = h.ui_fits;
    send_fits = h.send_fits;
    cache = keeps h.cache;
  };
  evolves = λ h. start;
}

pub users-Refines : {k : Cause} (n : Node) (us : List User) → Refines k n (record n { users = us })
users-Refines n us = record {
  host = λ h. record {
    table_valid = h.table_valid;
    ui_fits = h.ui_fits;
    send_fits = h.send_fits;
    cache = h.cache;
  };
  evolves = λ h. start;
}

pub series-Refines :
    {k : Cause} (n : Node) (s : List (List ℕ)) → Refines k n (record n { series = s })
series-Refines n s = record {
  host = λ h. record {
    table_valid = h.table_valid;
    ui_fits = h.ui_fits;
    send_fits = h.send_fits;
    cache = h.cache;
  };
  evolves = λ h. start;
}

-- A change of the table.
pub table-Refines :
    {k : Cause} (n : Node) (t : Table)
    → (IsValid n.table → IsValid t)
    → (IsValid n.table → Evolves k (view n.table) (view t))
    → Refines k n (record n { table = t })
table-Refines n t keeps changes = record {
  host = λ h. record {
    table_valid = keeps h.table_valid;
    ui_fits = h.ui_fits;
    send_fits = h.send_fits;
    cache = h.cache;
  };
  evolves = λ h. changes h.table_valid;
}

pub push_ui-Refines :
    {k : Cause} (n : Node) (text name : List ℕ)
    → Refines k n (record n { ui = (push_ui text name n.ui).0 })
unfolding push_ui
push_ui-Refines n text name = ui-Refines n _ (length-push n.ui _)

pub push_send-Refines :
    {k : Cause} (n : Node) (c : MsgCounter) (dest : ℕ) (msg : List ℕ) (len : ℕ)
    → Refines k n (record n { send = (push_send c dest msg len n.send).0 })
unfolding push_send
push_send-Refines n c dest msg len = send-Refines n _ (length-push n.send _)

pub Refines-if :
    {k : Cause} (n : Node) (b : Bool) (m l : Node)
    → Refines k n m
    → Refines k n l
    → Refines k n (if b then m else l)
Refines-if n true m l p q = p
Refines-if n false m l p q = q

-- A function that returns a good host, if it returns at all.
abbrev pub Yields : Cause → Node → Option Node → Type 0
Yields k n none = Unit
Yields k n (some n') = Refines k n n'

pub Yields-bind {ℓ} :
    {A : Type ℓ} (k : Cause) (n : Node) (o : Option A) (f : A → Option Node)
    → ((a : A) → Yields k n (f a))
    → Yields k n (o >>= f)
Yields-bind k n none f h = tt
Yields-bind k n (some a) f h = h a

pub Yields-if :
    (k : Cause) (n : Node) (b : Bool) (o o' : Option Node)
    → Yields k n o
    → Yields k n o'
    → Yields k n (if b then o else o')
Yields-if k n true o o' p q = p
Yields-if k n false o o' p q = q

pub Yields-elim :
    (k : Cause) (n : Node) (b : Bool) (o o' : Option Node)
    → Yields k n o
    → Yields k n o'
    → Yields k n (elim b [ true ↦ o | false ↦ o' ])
Yields-elim k n true o o' p q = p
Yields-elim k n false o o' p q = q

-- What is done after a first function.
pub Yields-after :
    (k : Cause) (n m : Node) (o : Option Node) → Refines k n m → Yields k m o → Yields k n o
Yields-after k n m none p q = tt
Yields-after k n m (some l) p q = Refines-trans p q

-- What is done with the host that a function returns.
pub Yields-then :
    (k : Cause) (n : Node) (o : Option Node) (g : Node → Option Node)
    → Yields k n o
    → ((m : Node) → Yields k m (g m))
    → Yields k n (o >>= g)
Yields-then k n none g p q = tt
Yields-then k n (some m) g p q = Yields-after k n m (g m) p (q m)

pub Yields-some :
    (k : Cause) (n n' : Node) (o : Option Node) → Yields k n o → o ≡ some n' → Refines k n n'
Yields-some k n n' none p e = absurd (none-ne-some _ e)
Yields-some k n n' (some m) p e = subst (Refines k n) (some-injective _ _ e) p

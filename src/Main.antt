-- ===== src/Main.antt =====
-- src/main.c: the arguments, and the host at the start of the program. getopt is not part of the
-- sources: the options are the list of its results.
pub mod Options
pub mod HostPort
use rn_praktikum.Base.{
  ◌≡◌, refl, ℕ, zero, suc, ◌+◌, ◌-◌, ◌*◌, ◌/◌, ◌%◌, ◌^◌, List, [], ◌∷◌, ◌++◌, Option, none, some,
  Bool, true, false, not, ◌==◌, ◌&&◌, ◌||◌, ltb, leb, if◌then◌else◌, length, take, zeros, replicate,
  c_str, get_or, write_at,
}
use rn_praktikum.Table.{init_table}
use rn_praktikum.Table.Start.{start_table}
use rn_praktikum.Node.{Node}
use rn_praktikum.Heartbeat.{max_users, no_user}
use rn_praktikum.Protocol.{do_login}

-- What a function of main.c comes to: a result, the end of the program by exit(EXIT_FAILURE), or
-- undefined behaviour.
pub data Outcome {ℓ} (A : Type ℓ) : Type ℓ where
  returns : A → Outcome A
  exits : Outcome A
  undefined : Outcome A

abbrev pub and_then {ℓ} : {A B : Type ℓ} → Outcome A → (A → Outcome B) → Outcome B
and_then (returns a) f = f a
and_then exits f = exits
and_then undefined f = undefined

-- What holds of the result, if there is one.
abbrev pub Returns : {A : Type 0} → (A → Type 0) → Outcome A → Type 0
Returns P (returns a) = P a
Returns P exits = Unit
Returns P undefined = Unit

pub Returns-and_then :
    {A B : Type 0} (P : A → Type 0) (Q : B → Type 0) (o : Outcome A) (f : A → Outcome B)
    → Returns P o
    → ((a : A) → P a → Returns Q (f a))
    → Returns Q (and_then o f)
Returns-and_then P Q (returns a) f h k = k a h
Returns-and_then P Q exits f h k = tt
Returns-and_then P Q undefined f h k = tt

pub Returns-tt : {A : Type 0} (o : Outcome A) → Returns (λ a. Unit) o
Returns-tt (returns a) = tt
Returns-tt exits = tt
Returns-tt undefined = tt

pub Returns-if :
    {A : Type 0} (P : A → Type 0) (b : Bool) (o o' : Outcome A)
    → (b ≡ true → Returns P o)
    → (b ≡ false → Returns P o')
    → Returns P (if b then o else o')
Returns-if P true o o' h k = h refl
Returns-if P false o o' h k = k refl

-- isdigit and isspace of atoi.
unfoldable pub is_digit : ℕ → Bool
is_digit b = leb 48 b && leb b 57

unfoldable pub is_space : ℕ → Bool
is_space b = (b == 32) || (leb 9 b && leb b 13)

-- The number that the digits at the front make, with the value of those before.
unfoldable pub digits_value : ℕ → List ℕ → ℕ
unfolding is_digit
digits_value v [] = v
digits_value v (b ∷ s) =
    let rest = digits_value (v * 10 + (b - 48)) s in if is_digit b then rest else v

-- atoi without its white space: whether there is a minus sign, and the digits' value.
unfoldable pub signed_value : List ℕ → Bool × ℕ
unfolding digits_value
signed_value [] = (false, 0)
signed_value (b ∷ s) =
    if b == 45
    then (true, digits_value 0 s)
    else if b == 43
    then (false, digits_value 0 s)
    else (false, digits_value 0 (b ∷ s))

unfoldable pub skip_space : List ℕ → List ℕ
unfolding is_space
skip_space [] = []
skip_space (b ∷ s) = let rest = skip_space s in if is_space b then rest else b ∷ s

-- strchr(buf, ':'): what stands before the first colon, and behind it.
unfoldable pub split_colon : List ℕ → Option (List ℕ × List ℕ)
split_colon [] = none
split_colon (b ∷ s) =
    let rest = split_colon s in
    if b == 58 then some ([], s) else (elim rest [ none ↦ none | some p ↦ some (b ∷ p.0, p.1) ])

-- The port: an int, whose range atoi must not leave, from 1 to 65535.
unfoldable pub check_port : Bool × ℕ → Outcome ℕ
check_port (negative, v) =
    if ltb (if negative then 2 ^ 31 else 2 ^ 31 - 1) v
    then undefined
    else if negative || ((v == 0) || ltb 65535 v)
    then exits
    else returns v

-- parse_host_port(arg, host, host_len, port, what): the string in `host`, and the port.
unfoldable pub parse_host_port : List ℕ → ℕ → Outcome (List ℕ × ℕ)
unfolding split_colon skip_space signed_value check_port
parse_host_port arg host_len = elim (split_colon (take 511 (c_str arg))) [
  | none ↦ exits
  | some p ↦
      and_then (check_port (signed_value (skip_space p.1)))
        (λ port. returns (take (host_len - 1) p.0, port))
]

-- A result of getopt, with optarg.
pub record Opt : Type 0 where
  pub opt : ℕ
  pub optarg : List ℕ

-- The strings in main's arrays, and the two ports.
pub record Args : Type 0 where
  pub chat_name : List ℕ
  pub local_host : List ℕ
  pub local_port : ℕ
  pub target_host : List ℕ
  pub target_port : ℕ

-- The switch for one option: n, l, t, or another.
unfoldable pub parse_opt : Opt → Args → Outcome Args
unfolding parse_host_port
parse_opt o a =
    if o.opt == 110
    then (if ltb 32 (length (c_str o.optarg))
        then exits
        else returns (record a { chat_name = take 32 (c_str o.optarg) }))
    else if o.opt == 108
    then and_then (parse_host_port o.optarg 256)
        (λ p. returns (record a { local_host = p.0; local_port = p.1 }))
    else if o.opt == 116
    then and_then (parse_host_port o.optarg 256)
        (λ p. returns (record a { target_host = p.0; target_port = p.1 }))
    else exits

-- The loop over getopt.
unfoldable pub parse_opts : List Opt → Args → Outcome Args
unfolding parse_opt
parse_opts [] a = returns a
parse_opts (o ∷ opts) a = and_then (parse_opt o a) (parse_opts opts)

-- The test of the required arguments.
unfoldable pub check_required : Args → Outcome Args
check_required a =
    if (get_or a.chat_name 0 0 == 0) || ((get_or a.local_host 0 0 == 0) || (a.local_port == 0))
    then exits
    else returns a

-- parse_args; `port` and `port'` are what the two ints hold at first.
unfoldable pub parse_args : (port port' : ℕ) → List Opt → Outcome Args
unfolding parse_opts check_required
parse_args port port' opts =
    and_then
      (parse_opts opts (record {
        chat_name = [];
        local_host = [];
        local_port = port;
        target_host = [];
        target_port = port';
      }))
      check_required

-- The globals when main has called initTable. ownName and the arrays of the entry have 32 bytes,
-- and the name is copied with its 0.
unfoldable pub start_node : List ℕ → ℕ → ℕ → List ℕ → List ℕ → Node
unfolding init_table
start_node name adress port junk junk' = record {
  own_name = write_at 0 name (zeros 32);
  table = init_table name adress port junk junk' start_table;
  ui = [];
  send = [];
  net = record { cons = []; registered = []; closed = []; sent = [] };
  series = [];
  users = replicate max_users no_user;
}

-- The four bytes of an in_addr, the lowest of s_addr first.
unfoldable pub address_bytes : ℕ → List ℕ
address_bytes a = a % 2 ^ 8 ∷ (a / 2 ^ 8) % 2 ^ 8 ∷ (a / 2 ^ 16) % 2 ^ 8 ∷ (a / 2 ^ 24) % 2 ^ 8 ∷ []

-- do_login when there is a target; `inet_aton` gives what s_addr holds behind that call.
unfoldable pub login_target : (inet_aton : List ℕ → ℕ) → Args → Node → Outcome Node
unfolding do_login address_bytes
login_target inet_aton a n =
    if get_or a.target_host 0 0 == 0
    then returns n
    else elim (do_login a.chat_name (address_bytes (inet_aton a.local_host)) a.local_port
        (inet_aton a.target_host) a.target_port n) [ none ↦ undefined | some n' ↦ returns n' ]

-- main up to start_sender; `inet_addr` is the function of the system. do_login follows when the
-- threads of the sender and of the server run.
unfoldable pub main :
    (inet_addr : List ℕ → ℕ) → (port port' : ℕ) → List ℕ → List ℕ → List Opt → Outcome Node
unfolding parse_args start_node
main inet_addr port port' junk junk' opts = and_then (parse_args port port' opts) (λ a.
    if leb 32 (length a.chat_name)
    then undefined
    else returns (start_node a.chat_name (inet_addr a.local_host) a.local_port junk junk'))

-- ===== src/Examples/Start.antt =====
-- Examples for the arguments, and for the host that main starts the threads with.
use rn_praktikum.Base.{ℕ, ◌≡◌, refl, List, [], ◌∷◌, ◌++◌, codes, arith, c_str}
use rn_praktikum.Table.Print.{decimal}
use rn_praktikum.Node.{Node}
use rn_praktikum.Heartbeat.{start_round}
use rn_praktikum.Server.{register}
use rn_praktikum.Main.{
  Opt, Args, returns, parse_host_port, parse_opt, parse_opts, parse_args, check_required,
  check_port, split_colon, skip_space, is_space, signed_value, digits_value, is_digit, start_node,
  login_target, main,
}
use rn_praktikum.Main.Options.{IsComplete, parse_args-IsComplete}
use rn_praktikum.Main.HostPort.{parse_host_port_printed}
use rn_praktikum.Host.{IsHost}
use rn_praktikum.Host.Steps.{Reaches, here, after, listen, login, beat, Reaches-IsHost}
use rn_praktikum.Examples.{noise}
use rn_praktikum.Examples.Messages.{all_but-All}

abbrev home : List ℕ
home = codes "10.0.0.1"

parse_host_port_printed_example :
    parse_host_port (home ++ 58 ∷ decimal 5000) 256 ≡ returns (home, 5000)
parse_host_port_printed_example =
    parse_host_port_printed home 5000 (all_but-All 0 home refl) (all_but-All 58 home refl)
      (omega arith) (omega arith) (omega arith)

-- -n alice -l 10.0.0.1:5000
abbrev options : List Opt
options =
    record { opt = 110; optarg = codes "alice" }
    ∷ record { opt = 108; optarg = codes "10.0.0.1:5000" }
    ∷ []

abbrev arguments : Args
arguments = record {
  chat_name = codes "alice";
  local_host = home;
  local_port = 5000;
  target_host = [];
  target_port = 0;
}

options_parsed : parse_args 7 0 options ≡ returns arguments
unfolding parse_args parse_opts parse_opt parse_host_port check_required check_port split_colon
    skip_space is_space signed_value digits_value is_digit c_str
options_parsed = refl

parse_args-IsComplete_example : IsComplete arguments
parse_args-IsComplete_example = parse_args-IsComplete 7 0 options arguments options_parsed

abbrev start_alice : Node
start_alice = start_node (codes "alice") 0x0100_000a 5000 noise noise

main_runs : main (λ s. 0x0100_000a) 7 0 noise noise options ≡ returns start_alice
unfolding main parse_args parse_opts parse_opt parse_host_port check_required check_port split_colon
    skip_space is_space signed_value digits_value is_digit c_str
main_runs = refl

-- Without a target there is no login.
no_login :
    login_target (λ s. 0x0100_000a) arguments (register 3 start_alice)
    ≡ returns (register 3 start_alice)
unfolding login_target
no_login = refl

-- The server's socket is registered, main finds no target, and a round of the heartbeat begins.
abbrev started : Node
started = start_round (register 3 start_alice)

steps : Reaches start_alice started
steps = after (after (after here (listen 3)) (login (λ s. 0x0100_000a) arguments no_login)) beat

Reaches-IsHost_example : IsHost started
Reaches-IsHost_example =
    Reaches-IsHost (λ s. 0x0100_000a) 7 0 noise noise options start_alice started main_runs steps

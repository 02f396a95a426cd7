-- ===== src/Main/Options.antt =====
-- parse_args of src/main.c: what is known of arguments that it accepts.
use rn_praktikum.Base.{
  ℕ, ◌-◌, ◌≤◌, ◌<◌, ◌≡◌, ◌≢◌, refl, ap, ◌⊎◌, inl, inr, List, [], ◌∷◌, Option, none, some, Bool,
  ◌==◌, ◌||◌, ltb, if◌then◌else◌, ◌^◌, arith, length, length-take, take, c_str, get_or,
}
use mathlib.Core.Path.{subst}
use rn_praktikum.Main.{
  returns, exits, and_then, Returns, Returns-and_then, Returns-if, split_colon, skip_space,
  signed_value, check_port, parse_host_port, Opt, Args, parse_opt, parse_opts, check_required,
  parse_args,
}

abbrev pub IsPort : ℕ → Type 0
IsPort port = (0 < port) × (port ≤ 65535)

-- A host of less than 256 bytes, with a port unless it is empty.
abbrev pub IsAddress : List ℕ → ℕ → Type 0
IsAddress host port = (length host < 256) × ((host ≡ []) ⊎ IsPort port)

-- The arguments between two options.
pub record IsWithin (a : Args) : Type 0 where
  pub name_fits : length a.chat_name ≤ 32
  pub local : IsAddress a.local_host a.local_port
  pub target : IsAddress a.target_host a.target_port

-- The arguments that parse_args accepts.
pub record IsComplete (a : Args) : Type 0 where
  pub within : IsWithin a
  pub named : get_or a.chat_name 0 0 ≢ 0
  pub located : get_or a.local_host 0 0 ≢ 0
  pub port_given : IsPort a.local_port

check_port-IsPort : (p : Bool × ℕ) → Returns IsPort (check_port p)
unfolding check_port
check_port-IsPort (negative, v) =
    Returns-if IsPort (ltb (if negative then 2 ^ 31 else 2 ^ 31 - 1) v) _ _ (λ e. tt)
      (λ e.
        Returns-if IsPort (negative || ((v == 0) || ltb 65535 v)) _ _ (λ f. tt)
          (λ f. ground (arith, f)))

abbrev HasAddress : List ℕ × ℕ → Type 0
HasAddress (host, port) = (length host < 256) × IsPort port

parse_host_port-HasAddress : (arg : List ℕ) → Returns HasAddress (parse_host_port arg 256)
unfolding parse_host_port
parse_host_port-HasAddress arg = split (split_colon (take 511 (c_str arg)))
  where
    split :
        (o : Option (List ℕ × List ℕ))
        → Returns HasAddress (elim o [
          | none ↦ exits
          | some p ↦
              and_then
                (check_port (signed_value (skip_space p.1)))
                (λ port. returns (take 255 p.0, port))
        ])
    split none = tt
    split (some p) =
        Returns-and_then IsPort HasAddress (check_port (signed_value (skip_space p.1))) _
          (check_port-IsPort (signed_value (skip_space p.1)))
          (λ port h. (omega (arith, length-take 255 p.0), h))

parse_opt-IsWithin : (o : Opt) (a : Args) → IsWithin a → Returns IsWithin (parse_opt o a)
unfolding parse_opt
parse_opt-IsWithin o a v =
    Returns-if IsWithin (o.opt == 110) _ _
      (λ e.
        Returns-if IsWithin (ltb 32 (length (c_str o.optarg))) _ _ (λ f. tt)
          (λ f. record {
            name_fits = omega (arith, length-take 32 (c_str o.optarg));
            local = v.local;
            target = v.target;
          }))
      (λ e.
        Returns-if IsWithin (o.opt == 108) _ _
          (λ f.
            Returns-and_then HasAddress IsWithin (parse_host_port o.optarg 256) _
              (parse_host_port-HasAddress o.optarg)
              (λ p h. record {
                name_fits = v.name_fits;
                local = (h.0, inr h.1);
                target = v.target;
              }))
          (λ f.
            Returns-if IsWithin (o.opt == 116) _ _
              (λ g.
                Returns-and_then HasAddress IsWithin (parse_host_port o.optarg 256) _
                  (parse_host_port-HasAddress o.optarg)
                  (λ p h. record {
                    name_fits = v.name_fits;
                    local = v.local;
                    target = (h.0, inr h.1);
                  }))
              (λ g. tt)))

parse_opts-IsWithin :
    (opts : List Opt) (a : Args) → IsWithin a → Returns IsWithin (parse_opts opts a)
unfolding parse_opts
parse_opts-IsWithin [] a v = v
parse_opts-IsWithin (o ∷ opts) a v =
    Returns-and_then IsWithin IsWithin (parse_opt o a) _ (parse_opt-IsWithin o a v)
      (parse_opts-IsWithin opts)

check_required-IsComplete : (a : Args) → IsWithin a → Returns IsComplete (check_required a)
unfolding check_required
check_required-IsComplete a v =
    Returns-if IsComplete
      ((get_or a.chat_name 0 0 == 0) || ((get_or a.local_host 0 0 == 0) || (a.local_port == 0))) _ _
      (λ e. tt)
      (λ e.
        let located : get_or a.local_host 0 0 ≢ 0 = λ z. ground (arith, e, z) in
        record {
          within = v;
          named = λ z. ground (arith, e, z);
          located = located;
          port_given = elim v.local.1 [
            | inl p ↦ absurd (located (ap (λ h. get_or h 0 0) p))
            | inr p ↦ p
          ];
        })

-- Whatever options getopt finds, and whatever the two ints for the ports held at first: when
-- parse_args returns, the name has 1 to 32 bytes, the local host is not empty, both hosts are
-- shorter than their arrays of 256 bytes, the local port is one from 1 to 65535, and so is the
-- target's unless the target's host is empty.
pub parse_args-IsComplete :
    (port port' : ℕ) (opts : List Opt) (a : Args)
    → parse_args port port' opts ≡ returns a
    → IsComplete a
unfolding parse_args
parse_args-IsComplete port port' opts a e =
    let start : Args = record {
      chat_name = [];
      local_host = [];
      local_port = port;
      target_host = [];
      target_port = port';
    } in
    subst (Returns IsComplete) e (
      Returns-and_then IsWithin IsComplete (parse_opts opts start) _
        (parse_opts-IsWithin opts start (record {
          name_fits = omega arith;
          local = (omega arith, inl refl);
          target = (omega arith, inl refl);
        }))
        check_required-IsComplete)

-- ===== src/Connections/Cache.antt =====
-- The connections of src/sender.c as a cache with one connection for each address.
use rn_praktikum.Base.{
  ℕ, ◌≡◌, ◌≢◌, refl, ap, ◌∙◌, List, [], ◌∷◌, Bool, true, false, not, ◌&&◌, ◌||◌, ◌==◌, arith,
}
use rn_praktikum.Connections.{
  Connection, Net, new_con, get_from, get_con, remove_from, remove_by, remove_con,
}

-- Whether a connection to `addr` is open.
unfoldable pub has : ℕ → List Connection → Bool
has addr [] = false
has addr (c ∷ cs) = (c.addr_port == addr) || has addr cs

unfoldable pub distinct : List Connection → Bool
unfolding has
distinct [] = true
distinct (c ∷ cs) = not (has c.addr_port cs) && distinct cs

-- No two open connections have the same address.
abbrev pub IsCache : Net → Type 0
IsCache net = distinct net.cons ≡ true

module _ (dial : ℕ → ℕ → ℕ) where
  has-get_from :
      (addr other : ℕ) (cs : List Connection)
      → has other (get_from dial addr cs).0 ≡ (has other cs || (addr == other))
  unfolding get_from has new_con
  has-get_from addr other [] = ground arith
  has-get_from addr other (c ∷ cs) = ground (arith, has-get_from addr other cs)

  distinct-get_from :
      (addr : ℕ) (cs : List Connection)
      → distinct cs ≡ true
      → distinct (get_from dial addr cs).0 ≡ true
  unfolding get_from distinct has
  distinct-get_from addr [] d = refl
  distinct-get_from addr (c ∷ cs) d =
      ground (arith, distinct-get_from addr cs, has-get_from addr c.addr_port cs)

  get_from-again :
      (addr : ℕ) (cs : List Connection)
      → get_from dial addr (get_from dial addr cs).0 ≡ get_from dial addr cs
  unfolding get_from new_con
  get_from-again addr [] = ground arith
  get_from-again addr (c ∷ cs) = ground (arith, get_from-again addr cs)

  addr_port-get_from :
      (addr : ℕ) (cs : List Connection) → (get_from dial addr cs).1.addr_port ≡ addr
  unfolding get_from new_con
  addr_port-get_from addr [] = refl
  addr_port-get_from addr (c ∷ cs) = ground (arith, addr_port-get_from addr cs)

  get_from-ne-nil : (addr : ℕ) (cs : List Connection) → (get_from dial addr cs).0 ≢ []
  unfolding get_from
  get_from-ne-nil addr [] h = cc
  get_from-ne-nil addr (c ∷ cs) h = ground arith

  -- With a connection open, get_con registers no descriptor.
  get_con-open :
      (addr : ℕ) (net : Net)
      → net.cons ≢ []
      → get_con dial addr net
        ≡ (record net { cons = (get_from dial addr net.cons).0 }, (get_from dial addr net.cons).1)
  unfolding get_con
  get_con-open addr net ne = cases net.cons refl
    where
      cases :
          (cs : List Connection)
          → net.cons ≡ cs
          → get_con dial addr net ≡ (
            record net { cons = (get_from dial addr net.cons).0 },
            (get_from dial addr net.cons).1,
          )
      cases [] e = absurd (ne e)
      cases (c ∷ cs) e = rw (e, get_con)

  get_con-closed :
      (addr : ℕ) (net : Net)
      → net.cons ≡ []
      → get_con dial addr net ≡ (
        record net {
          cons = new_con dial addr ∷ [];
          registered = (new_con dial addr).socket_fd ∷ net.registered;
        },
        new_con dial addr,
      )
  unfolding get_con
  get_con-closed addr net e = rw (e, get_con)

  -- What a call promises of the state and the connection that it returns.
  abbrev pub Serves : ℕ → Net × Connection → Type 0
  Serves addr (net, con) =
      (con.addr_port ≡ addr) × IsCache net × (get_con dial addr net ≡ (net, con))

  -- In a list with distinct addresses, get_con returns a connection to the address that it was
  -- asked for, keeps the addresses of the open connections distinct, and asked again for that
  -- address returns the same connection and opens nothing.
  pub get_con-Serves : (addr : ℕ) (net : Net) → IsCache net → Serves addr (get_con dial addr net)
  unfolding get_from distinct
  get_con-Serves addr net v = cases net.cons refl
    where
      cases : (cs : List Connection) → net.cons ≡ cs → Serves addr (get_con dial addr net)
      cases [] e =
          let opened = record net {
            cons = (get_from dial addr []).0;
            registered = (new_con dial addr).socket_fd ∷ net.registered;
          } in
          rw (get_con-closed addr net e) (
            addr_port-get_from addr [],
            distinct-get_from addr [] refl,
            get_con-open addr opened (get_from-ne-nil addr [])
                ∙ ap (λ (r : List Connection × Connection). (record opened { cons = r.0 }, r.1))
                    (get_from-again addr []),
          )
      cases (c ∷ cs) e =
          let ne : net.cons ≢ [] = λ z. cc in
          let (cs', con) = get_from dial addr net.cons in
          rw (get_con-open addr net ne) (
            addr_port-get_from addr net.cons,
            distinct-get_from addr net.cons v,
            get_con-open addr (record net { cons = cs' }) (get_from-ne-nil addr net.cons)
                ∙ ap (λ (r : List Connection × Connection). (record net { cons = r.0 }, r.1))
                    (get_from-again addr net.cons),
          )

  get_from-new :
      (addr : ℕ) (cs : List Connection)
      → has addr cs ≡ false
      → (get_from dial addr cs).1 ≡ new_con dial addr
  unfolding get_from has
  get_from-new addr [] h = refl
  get_from-new addr (c ∷ cs) h = ground (arith, get_from-new addr cs)

  -- A connection that get_con opens while another one is open is not registered for reading.
  get_con_unregistered :
      (addr : ℕ) (net : Net)
      → net.cons ≢ []
      → has addr net.cons ≡ false
      → let (net', con) = get_con dial addr net in
        (con ≡ new_con dial addr) × (has addr net'.cons ≡ true) × (net'.registered ≡ net.registered)
  get_con_unregistered addr net ne new =
      rw (get_con-open addr net ne) (
        get_from-new addr net.cons new,
        has-get_from addr addr net.cons ∙ ground (arith, new),
        refl,
      )

-- Without a connection to `addr`, nothing is taken out.
has-remove_from :
    (addr : ℕ) (cs : List Connection)
    → distinct cs ≡ true
    → has addr (remove_from (λ c. c.addr_port == addr) cs).0 ≡ false
unfolding has distinct remove_from
has-remove_from addr [] d = refl
has-remove_from addr (c ∷ cs) d = ground (arith, has-remove_from addr cs)

pub cons-remove_by :
    (test : Connection → Bool) (net : Net)
    → (remove_by test net).cons ≡ (remove_from test net.cons).0
unfolding remove_by
cons-remove_by test net = ground arith

-- remove_con leaves no connection to the address, in a list with distinct addresses.
pub has-remove_con :
    (addr : ℕ) (net : Net) → IsCache net → has addr (remove_con addr net).cons ≡ false
unfolding remove_con
has-remove_con addr net v = ap (has addr) (cons-remove_by _ net) ∙ has-remove_from addr net.cons v

-- ===== src/Routes.antt =====
-- What the routing table of src/routingTable.c is for, without its places, counters and marks: a
-- partial function from names to entries, and the ways in which it may change.
use rn_praktikum.Base.{
  refl, ◌⊎◌, inl, inr, ◌||◌, Bool-cases, Bool, true, false, ◌∙◌, ℕ, ◌≤◌, ◌≡◌, List, Option, none,
  some, if◌then◌else◌, str_eq,
}
use rn_praktikum.Table.{Entry}
use rn_praktikum.Table.Forget.{forget}

abbrev pub Routes : Type 0
Routes = List ℕ → Option Entry

-- `name` mapped to `e`, as strcmp compares names.
abbrev pub put : List ℕ → Entry → Routes → Routes
put name e r x = if str_eq name x then some e else r x

-- The same host, reached in another way.
pub record IsSameHost (e e' : Entry) : Type 0 where
  pub same_name : e'.chat_name ≡ e.chat_name
  pub same_adress : e'.adress ≡ e.adress
  pub same_port : e'.port ≡ e.port

-- What may make the routes change: nothing, a neighbour that does not answer, or a message.
pub data Cause : Type 0 where
  no_cause no_answer arrival : Cause

-- May names be learned and ways be shortened?
abbrev pub gains : Cause → Bool
gains arrival = true
gains no_answer = false
gains no_cause = false

-- May names be lost?
abbrev pub loses : Cause → Bool
loses arrival = true
loses no_answer = true
loses no_cause = false

-- One change, for a cause: none at all, a new name, a way that is not longer to a known name, or
-- the loss of a name together with all ways over it.
pub data Change (k : Cause) (r r' : Routes) : Type 0 where
  stay : ((x : List ℕ) → r' x ≡ r x) → Change k r r'
  learn :
      (name : List ℕ) (e : Entry)
      → gains k ≡ true
      → r name ≡ none
      → ((x : List ℕ) → r' x ≡ put name e r x)
      → Change k r r'
  shorten :
      (name : List ℕ) (e e' : Entry)
      → gains k ≡ true
      → r name ≡ some e
      → IsSameHost e e'
      → e'.hop_count ≤ e.hop_count
      → ((x : List ℕ) → r' x ≡ put name e' r x)
      → Change k r r'
  lose :
      (name : List ℕ) → loses k ≡ true → ((x : List ℕ) → r' x ≡ forget name (r x)) → Change k r r'

-- Any number of changes.
pub data Evolves (k : Cause) (r : Routes) : Routes → Type 0 where
  start : Evolves k r r
  next : {s t : Routes} → Evolves k r s → Change k s t → Evolves k r t

pub Evolves-trans : {k : Cause} {r s t : Routes} → Evolves k r s → Evolves k s t → Evolves k r t
Evolves-trans p start = p
Evolves-trans p (next q c) = next (Evolves-trans p q) c

pub Evolves-one : {k : Cause} {r s : Routes} → Change k r s → Evolves k r s
Evolves-one c = next start c

Change-no_cause : {r s : Routes} → Change no_cause r s → (x : List ℕ) → s x ≡ r x
Change-no_cause (stay h) x = h x
Change-no_cause (learn name e g h p) x = cc
Change-no_cause (shorten name e e' g h same le p) x = cc
Change-no_cause (lose name g p) x = cc

-- Without a cause the routes stay the same.
Evolves-no_cause : {r s : Routes} → Evolves no_cause r s → (x : List ℕ) → s x ≡ r x
Evolves-no_cause start x = refl
Evolves-no_cause (next p c) x = Change-no_cause c x ∙ Evolves-no_cause p x

-- The same entry for a name, or none any more.
abbrev pub Loses : Cause → Option Entry → Option Entry → Type 0
Loses k o o' = (o' ≡ o) ⊎ ((o' ≡ none) × (loses k ≡ true))

forget-cases : (name : List ℕ) (o : Option Entry) → (forget name o ≡ o) ⊎ (forget name o ≡ none)
forget-cases name none = inl refl
forget-cases name (some e) =
    elim (Bool-cases (str_eq e.chat_name name || str_eq e.next_chat_name name)) [
      | inl h ↦ inr (rw h refl)
      | inr h ↦ inl (rw h refl)
    ]

Change-Loses :
    {k : Cause} {r s : Routes} → gains k ≡ false → Change k r s → (x : List ℕ) → Loses k (r x) (s x)
Change-Loses h (stay p) x = inl (p x)
Change-Loses h (learn name e g n p) x = cc
Change-Loses h (shorten name e e' g n same le p) x = cc
Change-Loses h (lose name g p) x = elim (forget-cases name _) [
  | inl q ↦ inl (p x ∙ q)
  | inr q ↦ inr (p x ∙ q, g)
]

Loses-trans : (k : Cause) (o o' o'' : Option Entry) → Loses k o o' → Loses k o' o'' → Loses k o o''
Loses-trans k o o' o'' p (inr q) = inr q
Loses-trans k o o' o'' (inl p) (inl q) = inl (q ∙ p)
Loses-trans k o o' o'' (inr (p, g)) (inl q) = inr (q ∙ p, g)

-- For a cause by which nothing is learned, an entry stays as it is or is lost.
pub Evolves-Loses :
    {k : Cause} {r s : Routes}
    → gains k ≡ false
    → Evolves k r s
    → (x : List ℕ) → Loses k (r x) (s x)
Evolves-Loses h start x = inl refl
Evolves-Loses h (next p c) x = Loses-trans _ _ _ _ (Evolves-Loses h p x) (Change-Loses h c x)

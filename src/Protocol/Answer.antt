-- ===== src/Protocol/Answer.antt =====
-- The answer to a LOGIN message on its way (src/protocol.c): what the host queues, and what the new
-- host makes of the table in it.
use mathlib.Core.Option.{some-injective}
use mathlib.Core.Path.{subst}
use rn_praktikum.Base.{
  ℕ, zero, suc, ◌+◌, ◌-◌, ◌^◌, ◌≤◌, ◌<◌, ◌≡◌, ◌≢◌, refl, ap, sym, ◌∙◌, List, [], ◌∷◌, ◌++◌, none,
  some, arith, length, get_or, zeros, c_str, length-c_str-le, All,
}
use rn_praktikum.Names.{name_len, header_size, type_heart}
use rn_praktikum.Queue.{MessageSend, max_queue_size}
use rn_praktikum.Table.{Entry, scanned, adress_and_port}
use rn_praktikum.Table.Wire.{bytes32}
use rn_praktikum.Table.Export.{first_entry}
use rn_praktikum.Table.Lookup.{lookup}
use rn_praktikum.Table.Invariant.{IsValid, used}
use rn_praktikum.Table.Announce.{announced}
use rn_praktikum.Table.Growth.{Reached}
use rn_praktikum.Table.Exchange.{Have32}
use rn_praktikum.Node.{Node}
use rn_praktikum.Node.Heard.{Heard, HasFirst}
use rn_praktikum.Tcp.{send_tcp, read_tcp}
use rn_praktikum.Tcp.Stream.{Accepts, waiting}
use rn_praktikum.Protocol.{route_message}
use rn_praktikum.Protocol.Receive.{handle_msg}
use rn_praktikum.Protocol.Login.{login_content, neighbour}
use rn_praktikum.Protocol.Joining.{name_field, login_bytes}
use rn_praktikum.Protocol.Join.{handle_msg-login, length-name_field, get_or-append}
use rn_praktikum.Protocol.Arrival.{first_entry-login}
use rn_praktikum.Protocol.Beat.{create_header-congr}
use rn_praktikum.Protocol.Told.{table_letter, heart_letter}
use rn_praktikum.Protocol.Welcome.{updated_by, login_answered}
use rn_praktikum.Protocol.Fits.{
  Fits, Fits-first, announced_from-All, AllNamed-Fits, announced-first, length-announced-le,
  updated_by-Fits, used-updated_by, own_name-updated_by,
}
use rn_praktikum.Protocol.Spread.{table_delivered}

c_str-zeros : (k : ℕ) → c_str (zeros k) ≡ []
unfolding c_str
c_str-zeros zero = refl
c_str-zeros (suc k) = refl

c_str_padded : (name : List ℕ) (k : ℕ) → c_str (name ++ zeros k) ≡ c_str name
unfolding c_str
c_str_padded [] k = c_str-zeros k
c_str_padded (b ∷ name) k = rw (c_str_padded name k) refl

heart_letter-congr :
    (own a b : List ℕ) (dest : ℕ)
    → c_str a ≡ c_str b
    → heart_letter own a dest ≡ heart_letter own b dest
heart_letter-congr own a b dest e = rw (create_header-congr own a b type_heart e) refl

-- The treatment of the LOGIN message: what the host queues, and the table it has then.
pub login_treated :
    (junk junk' : ℕ → List ℕ) (from name rest : List ℕ) (adress port count : ℕ) (n : Node)
    (own : Entry)
    → get_or name 0 0 ≢ 0
    → length name ≤ 32
    → c_str from ≡ c_str name
    → adress < 2 ^ 32
    → port < 2 ^ 16
    → length (junk 0) ≡ 32
    → length (junk' 0) ≡ 32
    → IsValid n.table
    → first_entry n.table.slots ≡ some own
    → All Fits n.table.slots
    → lookup n.table (name_field name) ≡ none
    → used n.table < scanned
    → length n.send + scanned < max_queue_size
    → header_size ≤ count
    → let field = name_field name in
      let t = updated_by junk junk' (login_content field adress port rest) n in
      let dest = adress_and_port adress port in
      (m : Node) × (r : List ℕ) × (pre : List MessageSend) × (post : List MessageSend) × (handle_msg
          junk junk' count
          (login_bytes from name (bytes32 adress) port ++ rest)
          n
        ≡ some m)
      × (route_message t ≡ some r)
      × (m.send
          ≡ (n.send ++ (pre ++ table_letter field r dest ∷ post))
            ++ heart_letter n.own_name name dest ∷ [])
      × (lookup m.table field ≡ some (neighbour field adress port 1))
      × (m.table ≡ t.table)
login_treated junk junk' from name rest adress port count n own nz hn same ha hp hj hj' v first fits
      unknown room queue hc =
    let field = name_field name in
    let dest = adress_and_port adress port in
    let padded : c_str field ≡ c_str name = c_str_padded name (32 - length name) in
    let (sender, named, handled) =
      handle_msg-login junk junk' from name rest adress port count n
        (omega (arith, ap (λ (x : List ℕ). length x) same, length-c_str-le name, hn)) hc in
    let (m, r, pre, post, answered, er, sent, found, table) =
      login_answered junk junk' sender field rest adress port n own
        (get_or-append name (zeros (32 - length name)) nz) (length-name_field name hn)
        (named ∙ same ∙ sym padded) ha hp hj hj' v first unknown room
        (AllNamed-Fits n.table.slots fits) queue in
    (
      m,
      r,
      pre,
      post,
      handled ∙ answered,
      er,
      sent
          ∙ ap (λ h. (n.send ++ (pre ++ table_letter field r dest ∷ post)) ++ h ∷ [])
              (heart_letter-congr n.own_name sender name dest (named ∙ same)),
      found,
      table,
    )

-- The message with the table, from the host `n` that has treated the LOGIN message to a host `k`.
pub answer_delivered :
    (junk junk' noise noise' : ℕ → List ℕ) (write : ℕ → ℕ → ℕ) (last : ℕ)
    (name tail rest r : List ℕ) (adress port : ℕ) (n k : Node) (own : Entry)
    → Accepts write
    → get_or name 0 0 ≢ 0
    → length name ≡ 32
    → length (c_str n.own_name) ≤ name_len
    → adress < 2 ^ 32
    → port < 2 ^ 16
    → length (junk 0) ≡ 32
    → length (junk' 0) ≡ 32
    → Have32 noise
    → Have32 noise'
    → IsValid n.table
    → first_entry n.table.slots ≡ some own
    → get_or own.next_chat_name 0 0 ≢ 0
    → All Fits n.table.slots
    → lookup n.table name ≡ none
    → IsValid k.table
    → All Heard k.table.slots
    → HasFirst k.table.slots
    → used k.table + used n.table < scanned
    → let t = updated_by junk junk' (login_content name adress port tail) n in
      let q = table_letter name r (adress_and_port adress port) in
      route_message t ≡ some r
      → (bytes : List ℕ) × (k' : Node) × (send_tcp write (length q.msg + 1) last q.msg ≡ some bytes)
        × (read_tcp (waiting bytes) ≡ some bytes)
        × (handle_msg noise noise' (length bytes) (bytes ++ rest) k ≡ some k')
        × All (λ e. Reached k'.table e.chat_name (e.hop_count + 1)) (announced t.table)
        × Reached k'.table own.chat_name (own.hop_count + 1)
answer_delivered junk junk' noise noise' write last name tail rest r adress port n k own ok nz hn
      short ha hp hj hj' hk hk' v first nn fits unknown vk heard first' room er =
    let t = updated_by junk junk' (login_content name adress port tail) n in
    let dest = adress_and_port adress port in
    let mine = Fits-first n.table.slots own first fits in
    let fits' =
      updated_by-Fits junk junk' name tail adress port n nz hn ha hp hj hj' unknown fits in
    let own_first =
      first_entry-login junk junk' name tail adress port n own nz hn ha hp hj unknown first in
    let le = used-updated_by junk junk' name tail adress port n nz hn ha hp hj hj' v in
    let (r', bytes, k', er', sent, got, handled, learned) =
      table_delivered noise noise' write last name rest dest t k own ok
        (subst (λ x. length (c_str x) ≤ name_len)
          (sym (own_name-updated_by junk junk' name tail adress port n nz hn ha hp hj hj')) short)
        (omega (arith, length-c_str-le name, hn)) own_first mine.0 nn
        (announced_from-All scanned t.table.slots fits') hk hk' vk
        (omega (arith, length-announced-le scanned t.table.slots, le, room)) heard first' in
    let same : r' ≡ r = some-injective r' r (sym er' ∙ er) in
    let (es, p) = announced-first 9 t.table.slots own own_first mine in
    (
      bytes,
      k',
      ap
            (λ x.
              send_tcp write (length (table_letter name x dest).msg + 1) last
                (table_letter name x dest).msg)
            (sym same)
          ∙ sent,
      got,
      handled,
      learned,
      (subst (All (λ e. Reached k'.table e.chat_name (e.hop_count + 1))) p learned).0,
    )

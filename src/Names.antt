-- ===== src/Names.antt =====
-- src/protocol_header.c and src/protocol_header.h: the message header, names in fixed fields, and
-- the length of a message. A name in a header stands at the right end of its field.
pub mod RoundTrip
pub mod Length
use rn_praktikum.Base.{
  ℕ, zero, suc, ◌+◌, ◌-◌, ◌%◌, ◌^◌, List, [], ◌∷◌, ◌++◌, Option, none, some, ◌==◌, if◌then◌else◌,
  length, take, drop, zeros, get_or, write_at, c_str,
}

abbrev pub name_len : ℕ
name_len = 32

abbrev pub msg_size : ℕ
msg_size = 1500

-- The byte EOT, '\004', that ends a message.
abbrev pub eot : ℕ
eot = 4

abbrev pub type_login : ℕ
type_login = 1

abbrev pub type_chat : ℕ
type_chat = 2

abbrev pub type_logout : ℕ
type_logout = 3

abbrev pub type_route : ℕ
type_route = 4

abbrev pub type_heart : ℕ
type_heart = 5

abbrev pub type_heartresponse : ℕ
type_heartresponse = 6

abbrev pub type_error : ℕ
type_error = 7

-- The loop of getName, with the rounds left: `src` and `count` after it.
unfoldable pub skip_zeros : ℕ → List ℕ → ℕ → List ℕ × ℕ
skip_zeros zero src count = (src, count)
skip_zeros (suc n) [] count = ([], count)
skip_zeros (suc n) (b ∷ src) count =
    if b == 0 then skip_zeros n src (count - 1) else (b ∷ src, count)

-- getName(dest, src): the array `dest` afterwards. Bytes of `dest` behind the name, up to the one
-- at 32, stay as they were.
unfoldable pub get_name : List ℕ → List ℕ → List ℕ
unfolding skip_zeros
get_name dest src =
    let (rest, count) = skip_zeros name_len src name_len in
    write_at name_len (0 ∷ []) (write_at 0 (take count rest) dest)

-- setName(dest, src): the 32 bytes of the field. Of a string longer than the field, the last 32
-- bytes land in it.
unfoldable pub set_name : List ℕ → List ℕ
unfolding c_str
set_name src =
    let s = c_str src in
    write_at (name_len - length s) (drop (length s - name_len) s) (zeros name_len)

pub record Header : Type 0 where
  pub type : ℕ
  pub version : ℕ
  pub sendername : List ℕ
  pub targetname : List ℕ

-- protocol_create_header
unfoldable pub create_header : List ℕ → List ℕ → ℕ → Header
create_header sendername targetname type = record {
  type = type;
  version = 1;
  sendername = set_name sendername;
  targetname = set_name targetname;
}

abbrev pub header_size : ℕ
header_size = 66

-- The packed struct in memory, and read back from the first bytes of a message.
unfoldable pub header_bytes : Header → List ℕ
header_bytes h = h.type ∷ h.version ∷ (h.sendername ++ h.targetname)

unfoldable pub header_of_bytes : List ℕ → Header
header_of_bytes msg = record {
  type = get_or msg 0 0;
  version = get_or msg 1 0;
  sendername = take name_len (drop 2 msg);
  targetname = take name_len (drop 34 msg);
}

-- The loop of msglen with the rounds left; `none` is a read past the end of the array.
pub msglen_from : ℕ → List ℕ → ℕ → Option ℕ
msglen_from n [] len = none
msglen_from zero (b ∷ bs) len = some len
msglen_from (suc n) (b ∷ bs) len = if b == eot then some len else msglen_from n bs (len + 1)

unfoldable pub msglen : List ℕ → Option ℕ
unfolding msglen_from
msglen msg = msglen_from (msg_size - 1) msg 0

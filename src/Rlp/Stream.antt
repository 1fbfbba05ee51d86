-- ===== src/Rlp/Stream.antt =====
-- rlp/src/stream.rs: the writer. A list's header is put in front of its payload when the list is
-- complete. The stack of unfinished lists has its back, the innermost list, first.
pub mod Values
pub mod Lists
use aion_utils.Prelude.{
  ℕ, zero, suc, ◌+◌, ◌-◌, ◌*◌, ◌/◌, ◌%◌, ◌^◌, Bool, true, false, ◌&&◌, Option, none, some, List, [],
  ◌∷◌, ◌++◌, ltb, leb, ◌==◌, if◌then◌else◌, length, take, drop, set, Outcome, ok, err, panic, ◌>>=◌,
  map_ok,
}
use aion_utils.Prelude.Words.{usize_mod, add_usize, big_endian, leading_zeros}
use aion_utils.Rlp.Error.{Result}

pub record ListInfo : Type 0 where
  pub position : ℕ
  pub current : ℕ
  pub max : Option ℕ

pub record RlpStream : Type 0 where
  pub unfinished_lists : List ListInfo
  pub buffer : List ℕ
  pub finished_list : Bool

abbrev pub new : RlpStream
new = record { unfinished_lists = []; buffer = []; finished_list = false }

-- `buffer[i] = v` and `insert_slice`, which panic out of range, and a checked `usize` difference.
abbrev pub store : List ℕ → ℕ → ℕ → Result (List ℕ)
store buffer i v = if ltb i (length buffer) then ok (set buffer i v) else panic

abbrev pub insert_slice : List ℕ → ℕ → List ℕ → Result (List ℕ)
insert_slice buffer position bs =
    if leb position (length buffer)
    then ok (take position buffer ++ (bs ++ drop position buffer))
    else panic

abbrev pub checked_sub : ℕ → ℕ → Result ℕ
checked_sub a b = if leb b a then ok (a - b) else panic

-- `insert_size`: the low 32 bits of the size, and how many bytes they take.
unfoldable pub insert_size : List ℕ → ℕ → ℕ → Result (List ℕ × ℕ)
insert_size buffer size position =
    let size32 = size % 2 ^ 32 in
    let leading_empty_bytes = leading_zeros 32 size32 / 8 in
    map_ok (λ b. (b, 4 - leading_empty_bytes))
      (insert_slice buffer position (drop leading_empty_bytes (big_endian 4 size32)))

-- `insert_list_payload`; `u8` addition wraps.
unfoldable pub insert_list_payload : List ℕ → ℕ → ℕ → Result (List ℕ)
insert_list_payload buffer len pos =
    if leb len 55 then (do at ← checked_sub pos 1; store buffer at ((0xc0 + len) % 256)) else (do
      (longer, inserted_bytes) ← insert_size buffer len pos
      at ← checked_sub pos 1
      store longer at ((0xf7 + inserted_bytes) % 256))

-- `encode_value`, on the buffer.
unfoldable pub encode_long_value : List ℕ → List ℕ → Result (List ℕ)
encode_long_value buffer value = do
  let position = length buffer + 1
  (longer, inserted_bytes) ← insert_size (buffer ++ (0 ∷ [])) (length value) position
  at ← checked_sub position 1
  marked ← store longer at ((0xb7 + inserted_bytes) % 256)
  ok (marked ++ value)

abbrev pub encode_short_value : List ℕ → List ℕ → Result (List ℕ)
encode_short_value buffer value =
    if leb (length value) 55
    then ok ((buffer ++ ((0x80 + length value) ∷ [])) ++ value)
    else encode_long_value buffer value

unfoldable pub encode_value : List ℕ → List ℕ → Result (List ℕ)
encode_value buffer [] = ok (buffer ++ (0x80 ∷ []))
encode_value buffer (b ∷ []) =
    if ltb b 0x80 then ok (buffer ++ (b ∷ [])) else encode_short_value buffer (b ∷ [])
encode_value buffer (b ∷ c ∷ bs) = encode_short_value buffer (b ∷ c ∷ bs)

-- `s.encoder().encode_value(value)`, which is the whole `rlp_append` of a byte string.
abbrev pub append_value : List ℕ → RlpStream → Result RlpStream
append_value value s = map_ok (λ b. record s { buffer = b }) (encode_value s.buffer value)

abbrev pub mark_finished : RlpStream → RlpStream
mark_finished s = record s { finished_list = true }

-- `note_appended`, by recursion on the stack: a list that is full is closed, and counts as one item
-- of the list around it.
unfoldable pub note : List ListInfo → List ℕ → Bool → ℕ → Result RlpStream
note [] buffer finished inserted_items =
    ok (record { unfinished_lists = []; buffer = buffer; finished_list = finished })
note (x ∷ rest) buffer finished inserted_items =
    let current = add_usize x.current inserted_items in
    let open_still : Result RlpStream = ok (record {
      unfinished_lists = (record x { current = current }) ∷ rest;
      buffer = buffer;
      finished_list = false;
    }) in
    let closed : Result RlpStream = (do
      len ← checked_sub (length buffer) x.position
      headed ← insert_list_payload buffer len x.position
      map_ok mark_finished (note rest headed finished 1)) in
    elim x.max [
      | none ↦ open_still
      | some m ↦ if ltb m current then panic else if current == m then closed else open_still
    ]

abbrev pub note_appended : RlpStream → ℕ → Result RlpStream
note_appended s n = note s.unfinished_lists s.buffer s.finished_list n

-- `append`, where `rlp_append` is the value's own method.
unfoldable pub append : (RlpStream → Result RlpStream) → RlpStream → Result RlpStream
append rlp_append s = do
  t ← rlp_append (record s { finished_list = false })
  if t.finished_list then ok t else note_appended t 1

-- `append_internal`
abbrev pub append_internal : (RlpStream → Result RlpStream) → RlpStream → Result RlpStream
append_internal rlp_append s = rlp_append s

unfoldable pub begin_list : ℕ → RlpStream → Result RlpStream
begin_list zero s = map_ok mark_finished (note s.unfinished_lists (s.buffer ++ (0xc0 ∷ [])) false 1)
begin_list (suc len) s = ok (record {
  unfinished_lists =
      record { position = length s.buffer + 1; current = 0; max = some (suc len) }
      ∷ s.unfinished_lists;
  buffer = s.buffer ++ (0 ∷ []);
  finished_list = false;
})

unfoldable pub new_list : ℕ → Result RlpStream
new_list len = begin_list len new

-- The loop of `append_list`, over the values' methods.
unfoldable pub append_all : List (RlpStream → Result RlpStream) → RlpStream → Result RlpStream
append_all [] s = ok s
append_all (v ∷ vs) s = do t ← append v s; append_all vs t

unfoldable pub append_list : List (RlpStream → Result RlpStream) → RlpStream → Result RlpStream
append_list values s = do t ← begin_list (length values) s; append_all values t

unfoldable pub begin_unbounded_list : RlpStream → RlpStream
begin_unbounded_list s = record {
  unfinished_lists =
      record { position = length s.buffer + 1; current = 0; max = none } ∷ s.unfinished_lists;
  buffer = s.buffer ++ (0 ∷ []);
  finished_list = false;
}

unfoldable pub append_empty_data : RlpStream → Result RlpStream
append_empty_data s = note s.unfinished_lists (s.buffer ++ (0x80 ∷ [])) s.finished_list 1

unfoldable pub append_raw : List ℕ → ℕ → RlpStream → Result RlpStream
append_raw bytes item_count s =
    note s.unfinished_lists (s.buffer ++ bytes) s.finished_list item_count

-- The bytes that the headers of the unfinished lists will take beyond the reserved ones.
unfoldable pub pending : ℕ → List ListInfo → ℕ
pending total_size [] = 0
pending total_size (list ∷ rest) =
    let len = total_size - list.position in
    (if ltb 55 len then 8 - leading_zeros 64 len / 8 else 0) + pending total_size rest

unfoldable pub estimate_size : ℕ → RlpStream → ℕ
estimate_size add s =
    let total_size = length s.buffer + add in total_size + pending total_size s.unfinished_lists

abbrev pub len : RlpStream → ℕ
len s = estimate_size 0 s

unfoldable pub append_raw_checked : List ℕ → ℕ → ℕ → RlpStream → Result (RlpStream × Bool)
append_raw_checked bytes item_count max_size s =
    if ltb max_size (estimate_size (length bytes) s)
    then ok (s, false)
    else map_ok (λ t. (t, true)) (append_raw bytes item_count s)

-- `clear` leaves `finished_list` as it is.
unfoldable pub clear : RlpStream → RlpStream
clear s = record s { buffer = []; unfinished_lists = [] }

abbrev pub is_finished : RlpStream → Bool
is_finished s = length s.unfinished_lists == 0

-- `out` and `drain`
unfoldable pub out : RlpStream → Result (List ℕ)
out s = if is_finished s then ok s.buffer else panic

unfoldable pub complete_unbounded_list : RlpStream → Result RlpStream
complete_unbounded_list s = elim s.unfinished_lists [
  | [] ↦ panic
  | list ∷ rest ↦ elim (list.max) [
    | some m ↦ panic
    | none ↦ (do
      len ← checked_sub (length s.buffer) list.position
      headed ← insert_list_payload s.buffer len list.position
      note rest headed s.finished_list 1)
  ]
]

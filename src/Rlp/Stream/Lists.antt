-- ===== src/Rlp/Stream/Lists.antt =====
-- The writer, with its reserved bytes and its stack of unfinished lists, writes the format. An item
-- is appended as the crate's clients append it: a byte string by `encode_value`, a list by
-- `begin_list` and `append` of each element.
use aion_utils.Prelude.{
  ℕ, ◌+◌, ◌%◌, ◌^◌, ◌<◌, ◌≡◌, refl, sym, ap, ◌∙◌, Bool, true, false, Option, some, List, [], ◌∷◌,
  ◌++◌, arith, length, length-append, ok, err, panic, ◌>>=◌, map_ok, bind_ok, append_assoc,
  append-nil, le→leb, le→ltb, ==_iff,
}
use aion_utils.Rlp.Error.{Result}
use aion_utils.Rlp.Stream.{
  ListInfo, RlpStream, new, begin_list, append, append_value, note, mark_finished, checked_sub, out,
}
use aion_utils.Rlp.Stream.Values.{encode_value-str, insert_list_payload-header}
use aion_utils.Rlp.Format.{
  Item, Items, str, lst, nil, cons, header, encode_item, encode_items, count, encode_items-cons,
  encode_items-nil, encode_item-lst, encode_item-str,
}
use aion_utils.Rlp.Format.Navigate.{length-lst}
use aion_utils.Rlp.Format.Reading.{length-str, length-encode_item}

unfoldable mutual
  pub write_item : Item → RlpStream → Result RlpStream
  write_item (str bs) s = append_value bs s
  write_item (lst xs) s = do t ← begin_list (count xs) s; write_items xs t

  pub write_items : Items → RlpStream → Result RlpStream
  write_items nil s = ok s
  write_items (cons x xs) s = do t ← append (write_item x) s; write_items xs t

abbrev pub list_info : ℕ → ℕ → Option ℕ → ListInfo
list_info position current max = record { position = position; current = current; max = max }

abbrev pub stream : List ListInfo → List ℕ → Bool → RlpStream
stream lists buffer finished = record {
  unfinished_lists = lists;
  buffer = buffer;
  finished_list = finished;
}

-- One item in a list that expects more after it.
pub note_open :
    (p c m : ℕ) (rest : List ListInfo) (buffer : List ℕ) (fin : Bool)
    → c + 1 < m
    → m < 2 ^ 64
    → note (list_info p c (some m) ∷ rest) buffer fin 1
      ≡ ok (stream (list_info p (c + 1) (some m) ∷ rest) buffer false)
unfolding note
note_open p c m rest buffer fin h small =
    let e : (c + 1) % 2 ^ 64 ≡ c + 1 = omega arith in rw e (ground arith)

payload_length :
    (front body : List ℕ) (z : ℕ)
    → checked_sub (length (front ++ (z ∷ body))) (length front + 1) ≡ ok (length body)
payload_length front body z =
    let e = length-append front (z ∷ body) in
    rw (le→leb (length front + 1) (length (front ++ (z ∷ body))) (omega arith))
      (ap ok (omega arith))

-- The last item of a list: its header is written, and the list counts in the list around it.
pub note_full :
    (c m z : ℕ) (rest : List ListInfo) (front body : List ℕ) (fin : Bool)
    → c + 1 ≡ m
    → m < 2 ^ 64
    → length body < 2 ^ 32
    → note (list_info (length front + 1) c (some m) ∷ rest) (front ++ (z ∷ body)) fin 1
      ≡ map_ok mark_finished (note rest (front ++ (header 0xc0 (length body) ++ body)) fin 1)
unfolding note
note_full c m z rest front body fin h small fits =
    let e : (c + 1) % 2 ^ 64 ≡ m = omega arith in
    rw
      (
        e,
        le→ltb m m (omega arith),
        (==_iff m m).1 refl,
        payload_length front body z,
        insert_list_payload-header front body z fits,
      )
      refl

abbrev pub flag : Item → Result RlpStream → Result RlpStream
flag (str bs) r = r
flag (lst xs) r = map_ok mark_finished r

-- Appending an item is writing its encoding, and counting it in the list around it.
abbrev pub WritesItem : Item → Type 0
WritesItem x =
    (s : RlpStream)
    → length (encode_item x) < 2 ^ 32
    → append (write_item x) s ≡ flag x (note s.unfinished_lists (s.buffer ++ encode_item x) false 1)

-- Appending the items that a list still expects closes it.
abbrev WritesItems : Items → Type 0
WritesItems xs =
    (c m z : ℕ) (rest : List ListInfo) (front body : List ℕ) (fin : Bool)
    → c + count xs ≡ m
    → 0 < count xs
    → m < 2 ^ 64
    → length (body ++ encode_items xs) < 2 ^ 32
    → write_items xs
        (stream (list_info (length front + 1) c (some m) ∷ rest) (front ++ (z ∷ body)) fin)
      ≡ map_ok mark_finished (
          note rest
            (front ++ (header 0xc0 (length (body ++ encode_items xs)) ++ (body ++ encode_items xs)))
            false 1)

pub str-WritesItem : (bs : List ℕ) → WritesItem (str bs)
unfolding append write_item
str-WritesItem bs s h =
    rw (encode_value-str s.buffer bs (omega (arith, length-str bs)), encode_item-str bs) refl

-- A value that leaves a closed list behind is not counted once more.
append_marked :
    (f : RlpStream → Result RlpStream) (s : RlpStream) (r : Result RlpStream)
    → f (record s { finished_list = false }) ≡ map_ok mark_finished r
    → append f s ≡ map_ok mark_finished r
unfolding append
append_marked f s (ok t) e = rw e
append_marked f s (err x) e = rw e
append_marked f s panic e = rw e

lst-WritesItem : (xs : Items) → WritesItems xs → WritesItem (lst xs)
unfolding write_item begin_list count header
lst-WritesItem nil h s fits =
    append_marked _ s _ (rw (encode_item-lst nil, encode_items-nil) (bind_ok _))
lst-WritesItem (cons x xs) h s fits = append_marked _ s _ (
    rw encode_item-lst (
      h 0 (count (cons x xs)) 0 s.unfinished_lists s.buffer [] false (omega arith) (omega arith)
        (omega (arith, length-lst (cons x xs)))
        (omega (arith, length-encode_item (lst (cons x xs))))))

flag-mark :
    (x : Item) (r : Result RlpStream)
    → (flag x (map_ok mark_finished r) >>= ok) ≡ map_ok mark_finished r
flag-mark (str bs) (ok t) = refl
flag-mark (str bs) (err e) = refl
flag-mark (str bs) panic = refl
flag-mark (lst xs) (ok t) = refl
flag-mark (lst xs) (err e) = refl
flag-mark (lst xs) panic = refl

flag-ok :
    (x : Item) (lists : List ListInfo) (buffer : List ℕ)
    → (fin : Bool) × (flag x (ok (stream lists buffer false)) ≡ ok (stream lists buffer fin))
flag-ok (str bs) lists buffer = (false, refl)
flag-ok (lst xs) lists buffer = (true, refl)

-- The last item closes the list; an earlier one leaves it open for the rest.
last-WritesItems : (x : Item) → WritesItem x → WritesItems (cons x nil)
unfolding write_items count
last-WritesItems x hx c m z rest front body fin e pos small fits =
    let one : encode_items (cons x nil) ≡ encode_item x =
      encode_items-cons x nil ∙ rw encode_items-nil (append-nil (encode_item x)) in
    let fits' : length (body ++ encode_item x) < 2 ^ 32 = rw one at fits in
    let s = stream (list_info (length front + 1) c (some m) ∷ rest) (front ++ (z ∷ body)) fin in
    rw
      (
        one,
        hx s (omega (arith, length-append body (encode_item x))),
        append_assoc front (z ∷ body) (encode_item x),
        note_full c m z rest front (body ++ encode_item x) false (omega arith) small fits',
        flag-mark x _,
      )
      refl

cons-WritesItems : (x : Item) (xs : Items) → WritesItem x → WritesItems xs → WritesItems (cons x xs)
unfolding write_items count
cons-WritesItems x nil hx hxs = last-WritesItems x hx
cons-WritesItems x (cons y ys) hx hxs = λ c m z rest front body fin e pos small fits.
    let more = cons y ys in
    let split : body ++ encode_items (cons x more) ≡ (body ++ encode_item x) ++ encode_items more =
      rw encode_items-cons (sym (append_assoc body (encode_item x) (encode_items more))) in
    let fits' : length ((body ++ encode_item x) ++ encode_items more) < 2 ^ 32 = rw split at fits in
    let s = stream (list_info (length front + 1) c (some m) ∷ rest) (front ++ (z ∷ body)) fin in
    let open_list = list_info (length front + 1) (c + 1) (some m) ∷ rest in
    let (fin', flagged) = flag-ok x open_list (front ++ (z ∷ (body ++ encode_item x))) in
    rw
      (
        split,
        hx s (
            omega (
              arith,
              length-append (body ++ encode_item x) (encode_items more),
              length-append body (encode_item x),
            )),
        append_assoc front (z ∷ body) (encode_item x),
        note_open (length front + 1) c m rest (front ++ (z ∷ (body ++ encode_item x))) false
            (omega arith) small,
        flagged,
      )
      (hxs (c + 1) m z rest front (body ++ encode_item x) fin' (omega arith) (omega arith) small
        fits')

nil-WritesItems : WritesItems nil
unfolding count
nil-WritesItems c m z rest front body fin e pos = absurd (omega arith)

mutual
  item-WritesItem : (x : Item) → WritesItem x
  item-WritesItem (str bs) = str-WritesItem bs
  item-WritesItem (lst xs) = lst-WritesItem xs (items-WritesItems xs)

  items-WritesItems : (xs : Items) → WritesItems xs
  items-WritesItems nil = nil-WritesItems
  items-WritesItems (cons x xs) = cons-WritesItems x xs (item-WritesItem x) (items-WritesItems xs)

-- Encoding an item from a new stream and draining it gives the format's bytes, with no panic.
pub encode-item :
    (x : Item)
    → length (encode_item x) < 2 ^ 32
    → (append (write_item x) new >>= out) ≡ ok (encode_item x)
unfolding note out
encode-item x h = rw (item-WritesItem x new h) (last x)
  where
    last :
        (x : Item) → (flag x (note [] ([] ++ encode_item x) false 1) >>= out) ≡ ok (encode_item x)
    last (str bs) = refl
    last (lst xs) = refl

-- ===== src/Trie/Mutable/Commit/Writes.antt =====
-- What each write of `into_rlp` and `commit_node` does to the stream of one open list.
use aion_utils.Prelude.{
  ℕ, ◌+◌, ◌^◌, ◌≤◌, ◌<◌, ◌≡◌, refl, ap, ◌∙◌, Bool, true, false, Option, none, some, List, [], ◌∷◌,
  ◌++◌, ltb, ltb_false→le, arith, Bool-cases, inl, inr, length, ok, map_ok,
}
use aion_utils.Rlp.Error.{Result}
use aion_utils.Rlp.Stream.{RlpStream, append, append_value, append_empty_data, append_raw, note}
use aion_utils.Rlp.Stream.Lists.{
  list_info, stream, write_item, note_open, note_full, str-WritesItem,
}
use aion_utils.Rlp.Format.{Item, str, header, encode_item}
use aion_utils.Db.Map.{ne→same}
use aion_utils.Db.Memory.{insert, null_rlp}
use aion_utils.Trie.Mutable.{Value}
use aion_utils.Trie.Mutable.Shape.{Tree, node_of}
use aion_utils.Trie.Mutable.Shape.Forests.{handle_of}
use aion_utils.Trie.Mutable.Commit.{
  Store, Digest, stored, commit_rlp, append_stored_value, into_rlp, commit_node,
}
use aion_utils.Trie.Mutable.Commit.Items.{
  value_item, referred, node_item, if_long, stored_below, store_all, store_all-append,
}

-- The stream of one open list of `m` items, with `c` of them written.
abbrev pub opened : ℕ → ℕ → List ℕ → Bool → RlpStream
opened m c body fin = stream (list_info 1 c (some m) ∷ []) (0 ∷ body) fin

-- What a write does: it puts an item's encoding behind what is there, and counts it.
abbrev pub Writes : (RlpStream → Result RlpStream) → List ℕ → Type 0
Writes w bs =
    (s : RlpStream) → (fin : Bool) × (w s ≡ note s.unfinished_lists (s.buffer ++ bs) fin 1)

pub value-Writes :
    (bs : List ℕ)
    → length (encode_item (str bs)) < 2 ^ 32
    → Writes (append (append_value bs)) (encode_item (str bs))
unfolding write_item
value-Writes bs h s = (false, str-WritesItem bs s h)

pub empty-Writes : Writes append_empty_data (encode_item (str []))
unfolding append_empty_data encode_item
empty-Writes s = (s.finished_list, refl)

pub raw-Writes : (bs : List ℕ) → Writes (append_raw bs 1) bs
unfolding append_raw
raw-Writes bs s = (s.finished_list, refl)

-- Such a write in a list that expects more, and at its end.
pub written_open :
    (w : RlpStream → Result RlpStream) (bs : List ℕ)
    → Writes w bs
    → (m c : ℕ) (body : List ℕ) (fin : Bool) → c + 1 < m
    → m < 2 ^ 64
    → w (opened m c body fin) ≡ ok (opened m (c + 1) (body ++ bs) false)
written_open w bs h m c body fin more small =
    let (fin', run) = h (opened m c body fin) in
    run ∙ note_open 1 c m [] (0 ∷ (body ++ bs)) fin' more small

pub written_last :
    (w : RlpStream → Result RlpStream) (bs : List ℕ)
    → Writes w bs
    → (m c : ℕ) (body : List ℕ) (fin : Bool) → c + 1 ≡ m
    → m < 2 ^ 64
    → length (body ++ bs) < 2 ^ 32
    → w (opened m c body fin)
      ≡ ok (stream [] (header 0xc0 (length (body ++ bs)) ++ (body ++ bs)) true)
unfolding note
written_last w bs h m c body fin e small fits =
    let (fin', run) = h (opened m c body fin) in
    rw (run, note_full c m 0 [] [] (body ++ bs) fin' e small fits) refl

-- A write that may store a node first.
pub record Commits (f : RlpStream → Result (Store × RlpStream)) (after : Store) (bs : List ℕ)
    : Type 0 where
  pub write : RlpStream → Result RlpStream
  pub writes : Writes write bs
  pub runs : (s : RlpStream) → f s ≡ map_ok (λ t. (after, t)) (write s)

pub stored-digest :
    (digest : Digest) (rlp : List ℕ) (st : Store)
    → 32 ≤ length rlp
    → (stored digest rlp st).0 ≡ digest rlp
unfolding stored insert
stored-digest digest rlp st h =
    rw (ne→same rlp null_rlp (λ e. let short : length rlp ≡ 1 = ap length e in omega arith)) refl

commit_rlp-Commits :
    (digest : Digest) (x : Item) (st : Store)
    → length (encode_item (referred digest x)) < 2 ^ 32
    → Commits
        (commit_rlp digest (encode_item x) st)
        (store_all digest (if_long (encode_item x)) st)
        (encode_item (referred digest x))
unfolding commit_rlp store_all
commit_rlp-Commits digest x st h = elim (Bool-cases (ltb (length (encode_item x)) 32)) [
  | inl e ↦ record {
    write = append_raw (encode_item x) 1;
    writes = rw e (raw-Writes (encode_item x));
    runs = λ s. rw e refl;
  }
  | inr e ↦
      let long = ltb_false→le (length (encode_item x)) 32 e in
      let small : length (encode_item (str (digest (encode_item x)))) < 2 ^ 32 = rw e at h in
      record {
        write = append (append_value (digest (encode_item x)));
        writes = rw e (value-Writes (digest (encode_item x)) small);
        runs = λ s. rw (e, stored-digest digest (encode_item x) st long) refl;
      }
]

pub commit_node-Commits :
    (digest : Digest) (t : Tree) (st : Store)
    → into_rlp digest (node_of t) st
      ≡ ok (encode_item (node_item digest t), store_all digest (stored_below digest t) st)
    → length (encode_item (referred digest (node_item digest t))) < 2 ^ 32
    → Commits
        (commit_node digest (handle_of t) st)
        (store_all digest (stored_below digest t ++ if_long (encode_item (node_item digest t))) st)
        (encode_item (referred digest (node_item digest t)))
unfolding into_rlp
commit_node-Commits digest t st run h =
    let c =
      commit_rlp-Commits digest (node_item digest t) (store_all digest (stored_below digest t) st)
        h in
    record { write = c.write; writes = c.writes; runs = λ s. rw (run, store_all-append) (c.runs s) }

pub value_item-Writes :
    (w : Option Value)
    → length (encode_item (value_item w)) < 2 ^ 32
    → Writes (append_stored_value w) (encode_item (value_item w))
value_item-Writes none h = empty-Writes
value_item-Writes (some v) h = value-Writes v h

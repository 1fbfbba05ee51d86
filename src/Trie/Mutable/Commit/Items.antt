-- ===== src/Trie/Mutable/Commit/Items.antt =====
-- The items that a trie's nodes are: what its root stands for, written down without the code.
use aion_utils.Prelude.{
  ℕ, refl, List, ◌∷◌, ◌^◌, ◌≤◌, ◌<◌, ◌≡◌, ap, sym, ◌∙◌, true, false, Option, none, some, [], ◌++◌,
  ltb, if◌then◌else◌, arith, length, length-append, append_assoc, append-nil,
}
use aion_utils.Rlp.Format.{
  Item, Items, str, lst, cons, header, encode_item, encode_items, encode_item-lst,
}
use aion_utils.Trie.NibbleSlice.Encode.{hex_prefix}
use aion_utils.Trie.Mutable.{Value}
use aion_utils.Trie.Mutable.Shape.{Tree, tip, path, fork, Forest, gap, grow}
use aion_utils.Trie.Mutable.Commit.{Digest, Store, stored}

abbrev pub value_item : Option Value → Item
value_item none = str []
value_item (some v) = str v

-- A node of at least 32 bytes stands in its parent by its hash.
abbrev pub referred : Digest → Item → Item
referred digest x = if ltb (length (encode_item x)) 32 then x else str (digest (encode_item x))

unfoldable pub snoc : Items → Item → Items
snoc Items.nil y = cons y Items.nil
snoc (cons x xs) y = cons x (snoc xs y)

-- The item that a node is.
unfoldable mutual
  pub node_item : Digest → Tree → Item
  node_item digest (tip ks v) = lst (cons (str (hex_prefix ks true)) (cons (str v) Items.nil))
  node_item digest (path ks t) =
      lst (cons (str (hex_prefix ks false)) (cons (referred digest (node_item digest t)) Items.nil))
  node_item digest (fork f w) = lst (snoc (place_items digest f) (value_item w))

  pub place_items : Digest → Forest → Items
  place_items digest Forest.nil = Items.nil
  place_items digest (gap f) = cons (str []) (place_items digest f)
  place_items digest (grow t f) = cons (referred digest (node_item digest t)) (place_items digest f)

-- A node of at least 32 bytes is stored, and a shorter one is not.
abbrev pub if_long : List ℕ → List (List ℕ)
if_long rlp = if ltb (length rlp) 32 then [] else rlp ∷ []

-- The encodings that the nodes below a node are stored as, the deepest first.
unfoldable mutual
  unfolding node_item

  pub stored_below : Digest → Tree → List (List ℕ)
  stored_below digest (tip ks v) = []
  stored_below digest (path ks t) =
      stored_below digest t ++ if_long (encode_item (node_item digest t))
  stored_below digest (fork f w) = stored_in digest f

  pub stored_in : Digest → Forest → List (List ℕ)
  stored_in digest Forest.nil = []
  stored_in digest (gap f) = stored_in digest f
  stored_in digest (grow t f) =
      (stored_below digest t ++ if_long (encode_item (node_item digest t))) ++ stored_in digest f

-- The store after encodings were put into it.
unfoldable pub store_all : Digest → List (List ℕ) → Store → Store
store_all digest [] st = st
store_all digest (rlp ∷ rest) st = store_all digest rest (stored digest rlp st).1

pub store_all-append :
    (digest : Digest) (xs ys : List (List ℕ)) (st : Store)
    → store_all digest (xs ++ ys) st ≡ store_all digest ys (store_all digest xs st)
unfolding store_all
store_all-append digest [] ys st = refl
store_all-append digest (x ∷ xs) ys st = store_all-append digest xs ys (stored digest x st).1

-- No node's encoding has more than 32 bits' worth of bytes.
unfoldable mutual
  unfolding node_item

  pub IsSmall : Digest → Tree → Type 0
  IsSmall digest (tip ks v) = length (encode_item (node_item digest (tip ks v))) < 2 ^ 32
  IsSmall digest (path ks t) =
      (length (encode_item (node_item digest (path ks t))) < 2 ^ 32) × IsSmall digest t
  IsSmall digest (fork f w) =
      (length (encode_item (node_item digest (fork f w))) < 2 ^ 32) × AreSmall digest f

  pub AreSmall : Digest → Forest → Type 0
  AreSmall digest Forest.nil = Unit {0}
  AreSmall digest (gap f) = AreSmall digest f
  AreSmall digest (grow t f) = IsSmall digest t × AreSmall digest f

pub encode_items-two :
    (x y : Item) → encode_items (cons x (cons y Items.nil)) ≡ encode_item x ++ encode_item y
unfolding encode_items
encode_items-two x y = ap (λ t. encode_item x ++ t) (append-nil (encode_item y))

pub encode_items-snoc :
    (xs : Items) (y : Item) → encode_items (snoc xs y) ≡ encode_items xs ++ encode_item y
unfolding encode_items snoc
encode_items-snoc Items.nil y = append-nil (encode_item y)
encode_items-snoc (cons x xs) y =
    ap (λ t. encode_item x ++ t) (encode_items-snoc xs y)
    ∙ sym (append_assoc (encode_item x) (encode_items xs) (encode_item y))

pub payload-le : (xs : Items) → length (encode_items xs) ≤ length (encode_item (lst xs))
payload-le xs = omega (
  arith,
  ap length (encode_item-lst xs),
  length-append (header 0xc0 (length (encode_items xs))) (encode_items xs),
)

pub encode_item-two :
    (x y : Item)
    → encode_item (lst (cons x (cons y Items.nil)))
      ≡ header 0xc0 (length (encode_item x ++ encode_item y)) ++ (encode_item x ++ encode_item y)
encode_item-two x y =
    encode_item-lst (cons x (cons y Items.nil))
    ∙ ap (λ p. header 0xc0 (length p) ++ p) (encode_items-two x y)

pub encode_item-snoc :
    (xs : Items) (y : Item)
    → encode_item (lst (snoc xs y))
      ≡ header 0xc0 (length (encode_items xs ++ encode_item y))
        ++ (encode_items xs ++ encode_item y)
encode_item-snoc xs y =
    encode_item-lst (snoc xs y) ∙ ap (λ p. header 0xc0 (length p) ++ p) (encode_items-snoc xs y)

-- The parts of a list that fits fit.
pub two-fits :
    (x y : Item)
    → length (encode_item (lst (cons x (cons y Items.nil)))) < 2 ^ 32
    → (length (encode_item x) < 2 ^ 32)
      × (length (encode_item y) < 2 ^ 32)
      × (length (encode_item x ++ encode_item y) < 2 ^ 32)
two-fits x y h =
    let total = payload-le (cons x (cons y Items.nil)) in
    let same_size = ap length (encode_items-two x y) in
    let sum = length-append (encode_item x) (encode_item y) in
    (omega arith, omega arith, omega arith)

pub snoc-fits :
    (xs : Items) (y : Item)
    → length (encode_item (lst (snoc xs y))) < 2 ^ 32
    → (length (encode_items xs) < 2 ^ 32)
      × (length (encode_item y) < 2 ^ 32)
      × (length (encode_items xs ++ encode_item y) < 2 ^ 32)
snoc-fits xs y h =
    let total = payload-le (snoc xs y) in
    let same_size = ap length (encode_items-snoc xs y) in
    let sum = length-append (encode_items xs) (encode_item y) in
    (omega arith, omega arith, omega arith)
